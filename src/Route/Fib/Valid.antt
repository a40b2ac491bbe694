-- ===== src/Route/Fib/Valid.antt =====
-- The table stays a map from names to sets of next hops.
use nlsr.Prelude.{
  Eq, ◌==◌, Ord, Double, erase_if, modify_if, Option-cases, ◌+◌, ◌∙◌, inl, inr, Bool, Option, none,
  some, List, [], ◌∷◌, arith,
}
use nlsr.Prelude.Sets.{
  set_insert, IsSorted-set_insert, IsSorted-erase_if, IsSorted-modify_if, by_key,
}
use nlsr.Adjacency.{Adjacent}
use nlsr.Route.NextHop.{NextHop}
use nlsr.Route.NexthopList.Lookup.{IsUriSorted-add_all, IsUriSorted}
use nlsr.Route.Fib.{
  FibEntry, entry_name, add_next_hops_to_fib_entry_and_nfd, remove, new_entry, hops_to_add, install,
  update, refresh_entry, Fib,
}
use nlsr.Route.Fib.Entry.{update_entry-IsUriSorted}
use nlsr.Route.Fib.Update.{
  entry_of, hops_in, SetsSorted, hops_in-IsUriSorted, entry_name-found, refresh_if_due-nexthop_set,
  entry_after, entry_after-name, IsValid,
}

module _ {N F D : Type 0} ⦃n : Eq N⦄ ⦃no : Ord N⦄ ⦃f : Eq F⦄ ⦃o : Ord F⦄ ⦃d : Double D⦄ where
  SetsSorted-set_insert :
      (e : FibEntry N F D) (table : List (FibEntry N F D))
      → IsUriSorted e.nexthop_set
      → SetsSorted table
      → SetsSorted (set_insert (by_key entry_name) e table)
  unfolding set_insert
  SetsSorted-set_insert e [] h s = (h, tt)
  SetsSorted-set_insert e (x ∷ xs) h s = ground (arith, SetsSorted-set_insert e xs h s.1)

  SetsSorted-modify_if :
      (name : N) (e : FibEntry N F D) (table : List (FibEntry N F D))
      → IsUriSorted e.nexthop_set
      → SetsSorted table
      → SetsSorted (modify_if (λ x. x.name == name) (λ _. e) table)
  SetsSorted-modify_if name e [] h s = tt
  SetsSorted-modify_if name e (x ∷ xs) h s = ground (arith, SetsSorted-modify_if name e xs h s.1)

  SetsSorted-erase_if :
      (p : FibEntry N F D → Bool) (table : List (FibEntry N F D))
      → SetsSorted table
      → SetsSorted (erase_if p table)
  SetsSorted-erase_if p [] s = tt
  SetsSorted-erase_if p (x ∷ xs) s = ground (arith, SetsSorted-erase_if p xs s.1)

  remove-IsValid :
      (fib : Fib N F D) (adj : List (Adjacent N F D)) (name : N)
      → IsValid fib
      → IsValid (remove fib adj name)
  unfolding remove
  remove-IsValid fib adj name v = ground (
    arith,
    SetsSorted-erase_if (λ e. e.name == name) fib.table v.sets,
    IsSorted-erase_if entry_name (λ e. e.name == name) fib.table v.names,
  )

  entry_after-IsUriSorted :
      (fib : Fib N F D) (adj : List (Adjacent N F D)) (name : N) (hops : List (NextHop F D))
      (found : Option (FibEntry N F D))
      → IsUriSorted (hops_in found)
      → IsUriSorted (entry_after fib adj name hops found).nexthop_set
  unfolding entry_after add_next_hops_to_fib_entry_and_nfd new_entry
  entry_after-IsUriSorted fib adj name hops none s =
      rw (refresh_if_due-nexthop_set fib adj _) (IsUriSorted-add_all hops [] tt)
  entry_after-IsUriSorted fib adj name hops (some old) s =
      rw (refresh_if_due-nexthop_set fib adj _) (update_entry-IsUriSorted fib adj old hops s)

  install-IsValid :
      (fib : Fib N F D) (adj : List (Adjacent N F D)) (name : N) (hops : List (NextHop F D))
      → IsValid fib
      → IsValid (install fib adj name hops)
  unfolding install entry_after
  install-IsValid fib adj name [] v = remove-IsValid fib adj name v
  install-IsValid fib adj name (hop ∷ hops) v = elim (Option-cases (entry_of fib name)) [
    | inl e ↦
        rw (e, install)
          (record {
            names =
                IsSorted-set_insert entry_name (entry_after fib adj name (hop ∷ hops) none)
                  fib.table v.names;
            sets =
                SetsSorted-set_insert (entry_after fib adj name (hop ∷ hops) none) fib.table
                  (entry_after-IsUriSorted fib adj name (hop ∷ hops) none tt) v.sets;
          })
    | inr (old, e) ↦
        rw (e, install)
          (record {
            names =
                IsSorted-modify_if entry_name name
                  (entry_after fib adj name (hop ∷ hops) (some old)) fib.table
                  (entry_after-name fib adj name (hop ∷ hops) (some old)
                    (λ x h. entry_name-found name fib.table x (e ∙ h)))
                  v.names;
            sets =
                SetsSorted-modify_if name (entry_after fib adj name (hop ∷ hops) (some old))
                  fib.table
                  (entry_after-IsUriSorted fib adj name (hop ∷ hops) (some old)
                    (rw e at (hops_in-IsUriSorted name fib.table v.sets)))
                  v.sets;
          })
  ]

  refresh_entry-IsValid :
      (fib : Fib N F D) (adj : List (Adjacent N F D)) (name : N)
      → IsValid fib
      → IsValid (refresh_entry fib adj name)
  unfolding refresh_entry
  refresh_entry-IsValid fib adj name v = elim (Option-cases (entry_of fib name)) [
    | inl e ↦ rw (e, refresh_entry) v
    | inr (old, e) ↦
        let new : FibEntry N F D = record old {
          refresh_event = some fib.refresh_time;
          seq_no = old.seq_no + 1;
        } in
        rw (e, refresh_entry)
          (record {
            names =
                IsSorted-modify_if entry_name name new fib.table
                  (entry_name-found name fib.table old e) v.names;
            sets =
                SetsSorted-modify_if name new fib.table
                  (rw e at (hops_in-IsUriSorted name fib.table v.sets)) v.sets;
          })
  ]

  -- `update`, `remove` and the refresh event keep the table a map from names to sets of next
  -- hops ordered by URI, on every branch.
  pub operations-IsValid :
      (fib : Fib N F D) (adj : List (Adjacent N F D)) (name : N) (all : List (NextHop F D))
      → IsValid fib
      → IsValid (update fib adj name all)
        × IsValid (remove fib adj name)
        × IsValid (refresh_entry fib adj name)
  unfolding update
  operations-IsValid fib adj name all v = (
    install-IsValid fib adj name (hops_to_add fib all) v,
    remove-IsValid fib adj name v,
    refresh_entry-IsValid fib adj name v,
  )
