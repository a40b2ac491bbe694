-- ===== src/Route/NextHop.antt =====
-- route/nexthop.hpp: a next hop and its two orders. The cached wire block is left out.
use nlsr.Prelude.{
  Eq, ◌==◌, ==_refl, ==_iff, Ord, less, Double, ltb, nat_beq, if◌then◌else◌, ℕ, ◌≡◌, Bool, true,
  false, ◌&&◌, ◌||◌, arith,
}

pub record NextHop (F D : Type 0) : Type 0 where
  pub uri : F
  pub route_cost : D
  pub is_hyperbolic : Bool

module _ {F D : Type 0} ⦃d : Double D⦄ where
  unfoldable pub get_route_cost_as_adjusted_integer : NextHop F D → ℕ
  get_route_cost_as_adjusted_integer nh =
      if nh.is_hyperbolic then d.thousandths nh.route_cost else d.truncated nh.route_cost

  -- operator==
  unfoldable pub same_hop : ⦃f : Eq F⦄ → NextHop F D → NextHop F D → Bool
  same_hop a b =
      nat_beq (get_route_cost_as_adjusted_integer a) (get_route_cost_as_adjusted_integer b)
      && (a.uri == b.uri)

  -- operator<, on the pair of the adjusted cost and the URI
  unfoldable pub hop_lt : ⦃o : Ord F⦄ → NextHop F D → NextHop F D → Bool
  hop_lt a b =
      ltb (get_route_cost_as_adjusted_integer a) (get_route_cost_as_adjusted_integer b)
      || (nat_beq (get_route_cost_as_adjusted_integer a) (get_route_cost_as_adjusted_integer b)
          && less a.uri b.uri)

  -- NextHopUriSortedComparator
  abbrev pub hop_uri_lt : ⦃o : Ord F⦄ → NextHop F D → NextHop F D → Bool
  hop_uri_lt a b = less a.uri b.uri

  -- What the two comparators share: hops that neither puts first have one URI.
  abbrev pub SplitsUris : (NextHop F D → NextHop F D → Bool) → Type 0
  SplitsUris lt = (a b : NextHop F D) → lt a b ≡ false → lt b a ≡ false → a.uri ≡ b.uri

  pub hop_lt-SplitsUris : ⦃o : Ord F⦄ → SplitsUris hop_lt
  unfolding hop_lt
  hop_lt-SplitsUris ⦃o⦄ a b h k = ground (arith, o.lt_total a.uri b.uri)

  pub hop_uri_lt-SplitsUris : ⦃o : Ord F⦄ → SplitsUris hop_uri_lt
  hop_uri_lt-SplitsUris ⦃o⦄ a b h k = o.lt_total a.uri b.uri h k

  pub same_hop_refl : ⦃f : Eq F⦄ → (a : NextHop F D) → same_hop a a ≡ true
  unfolding same_hop
  same_hop_refl a = ground (arith, ==_refl a.uri)

  pub same_hop-uri : ⦃f : Eq F⦄ → (a b : NextHop F D) → same_hop a b ≡ true → a.uri ≡ b.uri
  unfolding same_hop
  same_hop-uri a b h = ground (arith, ==_iff a.uri b.uri)
