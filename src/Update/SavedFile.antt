-- ===== src/Update/SavedFile.antt =====
-- addOrDeletePrefix of update/prefix-update-processor.cpp: saving a prefix and deleting it again.
use nlsr.Update.{
  check_for_prefix_in_file, add_or_delete_prefix, FileFormat, with_added, with_removed,
}
use nlsr.Prelude.{
  Eq, ◌==◌, ==_refl, ==_iff, is_in, keep_if, ◌≡◌, refl, ◌∙◌, ◌≢◌, Bool, true, false, not, ◌||◌,
  some, List, [], ◌∷◌, ◌++◌, arith,
}

module _ {N L : Type 0} ⦃l : Eq L⦄ (format : FileFormat N L) where
  -- The file ends with a line break.
  abbrev pub ends_with_break : List L → Bool
  ends_with_break [] = true
  ends_with_break (line ∷ []) = line == format.empty_line
  ends_with_break (line ∷ next ∷ lines) = ends_with_break (next ∷ lines)

  ends_with_break-tail :
      (line : L) (lines : List L)
      → ends_with_break (line ∷ lines) ≡ true
      → ends_with_break lines ≡ true
  ends_with_break-tail line [] h = refl
  ends_with_break-tail line (next ∷ lines) h = h

  with_removed-with_added :
      (value : L) (lines : List L)
      → ends_with_break lines ≡ true
      → with_removed format (format.trim value) (with_added format value lines)
        ≡ with_removed format (format.trim value) lines
  unfolding with_removed with_added
  with_removed-with_added value [] h =
      ground (arith, ==_refl value, ==_refl (format.trim value), ==_refl format.empty_line)
  with_removed-with_added value (line ∷ []) h =
      ground (arith, ==_refl value, ==_refl (format.trim value), ==_refl format.empty_line)
  with_removed-with_added value (line ∷ next ∷ lines) h =
      let after = with_removed-with_added value (next ∷ lines) h in
      let after_next = with_removed-with_added value lines (ends_with_break-tail next lines h) in
      ground (arith, ==_refl value, ==_refl (format.trim value), ==_refl format.empty_line)

  is_in-with_added :
      (value : L) (lines : List L)
      → is_in format.advertising lines ≡ true
      → format.advertising ≢ format.empty_line
      → is_in value (with_added format value lines) ≡ true
  unfolding with_added
  is_in-with_added value [] h ne = cc h
  is_in-with_added value (line ∷ []) h ne = ground (
    arith,
    ==_refl value,
    ==_iff line format.advertising,
    ==_iff format.advertising line,
    ==_iff line format.empty_line,
    ==_iff format.advertising format.empty_line,
  )
  is_in-with_added value (line ∷ next ∷ lines) h ne =
      let after = is_in-with_added value (next ∷ lines) in
      ground (
        arith,
        ==_refl value,
        ==_iff line format.advertising,
        ==_iff format.advertising line,
        ==_iff line format.empty_line,
        ==_iff format.advertising format.empty_line,
      )

  not_in-with_added :
      (value : L) (lines : List L)
      → is_in format.advertising lines ≡ false
      → is_in value lines ≡ false
      → value ≢ format.empty_line
      → is_in value (with_added format value lines) ≡ false
  unfolding with_added
  not_in-with_added value [] a v ne = ground (arith, ==_iff value format.empty_line)
  not_in-with_added value (line ∷ []) a v ne = ground (
    arith,
    ==_iff value format.empty_line,
    ==_iff line format.advertising,
    ==_iff format.advertising line,
  )
  not_in-with_added value (line ∷ next ∷ lines) a v ne = ground (
    arith,
    not_in-with_added value (next ∷ lines),
    ==_iff line format.advertising,
    ==_iff format.advertising line,
  )

  -- The line is neither empty nor, but for blanks, the given one.
  abbrev pub is_kept : L → L → Bool
  is_kept value line = not (line == format.empty_line || format.trim line == value)

  with_removed_lem :
      (value : L) (lines : List L)
      → with_removed format value lines ≡ keep_if (is_kept value) lines ++ format.empty_line ∷ []
  unfolding with_removed
  with_removed_lem value [] = refl
  with_removed_lem value (line ∷ lines) = ground (arith, with_removed_lem value lines)

  -- Saving a name and deleting it: both commands report that they wrote the file, and the lines
  -- of the file are in the end the lines that it had, in their order, without the empty ones and
  -- without those that are the name's line but for blanks, behind them one line break. No other
  -- line is lost or added. The file ends with a line break, has a line "advertising", which is not
  -- the empty line, and did not have the name's line.
  pub delete-add :
      (name : N) (lines : List L)
      → ends_with_break lines ≡ true
      → is_in format.advertising lines ≡ true
      → is_in (format.prefix_line name) lines ≡ false
      → format.advertising ≢ format.empty_line
      → let saved = with_added format (format.prefix_line name) lines in
        (add_or_delete_prefix format name true (some lines) ≡ (some saved, true))
        × (add_or_delete_prefix format name false (some saved) ≡ (
          some (
              keep_if (is_kept (format.trim (format.prefix_line name))) lines
              ++ format.empty_line ∷ []),
          true,
        ))
  unfolding add_or_delete_prefix check_for_prefix_in_file
  delete-add name lines ends section new ne =
      let value = format.prefix_line name in
      let there = is_in-with_added value lines section ne in
      let same =
        with_removed-with_added value lines ends ∙ with_removed_lem (format.trim value) lines in
      (ground arith, ground arith)

  -- In a file with no line "advertising" the name is not saved, and still the file is reported as
  -- written: a second saving is not refused either. The name's line is not empty.
  pub add-not_saved :
      (name : N) (lines : List L)
      → is_in format.advertising lines ≡ false
      → is_in (format.prefix_line name) lines ≡ false
      → format.prefix_line name ≢ format.empty_line
      → let saved = with_added format (format.prefix_line name) lines in
        (add_or_delete_prefix format name true (some lines) ≡ (some saved, true))
        × (is_in (format.prefix_line name) saved ≡ false)
        × ((add_or_delete_prefix format name true (some saved)).1 ≡ true)
  unfolding add_or_delete_prefix check_for_prefix_in_file
  add-not_saved name lines section new ne =
      let value = format.prefix_line name in
      let absent = not_in-with_added value lines section new ne in
      (ground arith, absent, ground arith)
