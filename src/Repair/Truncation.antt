-- ===== src/Repair/Truncation.antt =====
-- The length of a truncated text.
use adaptive_orchestrator.Base.{
  ℕ, zero, suc, ◌-◌, ◌/◌, ◌≤◌, ◌<◌, ◌≡◌, refl, inl, inr, true, false, [], ◌∷◌, ◌++◌, arith, leb,
  ◌==◌, if◌then◌else◌, leb→le, Bool-cases, length, length-append,
}
use adaptive_orchestrator.Repair.{
  Text, strip, first_chars, drop_chars, truncation_mark, shorten, truncate_summary,
}

length-first_chars : (n : ℕ) (text : Text) → length (first_chars n text) ≤ n
unfolding first_chars
length-first_chars zero text = omega arith
length-first_chars (suc n) [] = omega arith
length-first_chars (suc n) (c ∷ cs) = omega (arith, length-first_chars n cs)

length-drop_chars : (n : ℕ) (text : Text) → length (drop_chars n text) ≡ length text - n
unfolding drop_chars
length-drop_chars zero text = omega arith
length-drop_chars (suc n) [] = omega arith
length-drop_chars (suc n) (c ∷ cs) = omega (arith, length-drop_chars n cs)

length-shorten :
    (text : Text) (max_chars : ℕ)
    → 32 ≤ max_chars
    → max_chars < length text
    → length (shorten text max_chars) ≤ max_chars
length-shorten text max_chars big long =
    rw
      (
        parts,
        length-append (first_chars half text ++ truncation_mark) end,
        length-append (first_chars half text) truncation_mark,
        length-end,
      )
      (omega (arith, length-first_chars half text, big))
  where
    half : ℕ
    half = (max_chars - 30) / 2

    end : Text
    end = if half == 0 then text else drop_chars (length text - half) text

    room : leb 30 max_chars ≡ true
    room = ground (arith, big)

    parts : shorten text max_chars ≡ first_chars half text ++ truncation_mark ++ end
    parts = unfold shorten in rw room refl

    some_half : (half == 0) ≡ false
    some_half = ground (arith, big)

    length-end : length end ≡ half
    length-end =
        rw (some_half, length-drop_chars (length text - half) text) (omega (arith, big, long))

-- With room for at least 32 characters, a truncated text is no longer than the limit.
pub length-truncate_summary :
    (text : Text) (max_chars : ℕ)
    → 32 ≤ max_chars
    → length (truncate_summary text max_chars) ≤ max_chars
unfolding truncate_summary
length-truncate_summary text max_chars big =
    elim (Bool-cases (leb (length (strip text)) max_chars)) [
      | inl e ↦ rw e (leb→le (length (strip text)) max_chars e)
      | inr e ↦ rw e (length-shorten (strip text) max_chars big (ground (arith, e)))
    ]
