-- ===== src/Worker/Logs.antt =====
-- The logs that are stored are bounded, and it is their end that is kept.
use Prim.Native.String as NativeString
use text.Mathlib.TextLemmas.{nil-append, cons-append, length-nil, length-cons}
use auto_bot.Worker.{drop_chars, part, join_parts, capture_logs}
use auto_bot.Prelude.{
  refl, inr, zero, false, eqb, ◌∙◌, ◌-◌, ap, inl, suc, ltb, arith, Bool-cases, sym, ◌⊎◌, ◌<◌, ◌+◌,
  some, ◌≤◌, Option, ◌≡◌, String, ℕ,
}

dropped :
    (k : ℕ) (s : String)
    → (front : String) × (s ≡ NativeString.◌++◌ front (drop_chars k s))
      × (k ≤ NativeString.count s → NativeString.count (drop_chars k s) + k ≡ NativeString.count s)
dropped zero s = (String.[], sym (nil-append s), λ h. omega arith)
dropped (suc k) String.[] =
    (String.[], sym (nil-append String.[]), λ h. absurd (omega (arith, length-nil)))
dropped (suc k) (String.◌∷◌ c s) =
    let (front, same, fewer) = dropped k s in
    (
      String.◌∷◌ c front,
      ap (String.◌∷◌ c) same ∙ sym (cons-append c front (drop_chars k s)),
      λ h. omega (arith, length-cons c s, fewer (omega (arith, length-cons c s))),
    )

-- The text before it is cut: the parts of the two streams.
abbrev pub full_log : String → String → Option String
full_log stdout stderr =
    join_parts (part "--- stdout ---\n" stdout) (part "--- stderr ---\n" stderr)

-- A log whose text is not longer than the limit is stored whole. Of a text that is longer, for a limit above
-- zero, the stored log is a mark of 18 characters and as many characters as the limit allows, which
-- are the end of the text.
pub capture_logs_lem :
    (max_chars : ℕ) (stdout stderr text : String)
    → full_log stdout stderr ≡ some text
    → 0 < max_chars
    → (capture_logs max_chars stdout stderr ≡ some text) × (NativeString.count text ≤ max_chars)
      ⊎ (max_chars < NativeString.count text)
        × ((front tail : String) × (capture_logs max_chars stdout stderr
              ≡ some (NativeString.◌++◌ "...(truncated)...\n" tail))
            × (text ≡ NativeString.◌++◌ front tail)
            × (NativeString.count tail ≡ max_chars))
unfolding capture_logs
capture_logs_lem max_chars stdout stderr text h positive =
    rw h (elim (Bool-cases (ltb max_chars (NativeString.count text))) [
      | inl long ↦
          let k = NativeString.count text - max_chars in
          let (front, same, fewer) = dropped k text in
          let limited : eqb max_chars 0 ≡ false = ground arith in
          rw (long, limited)
            (inr (ground arith, (front, drop_chars k text, refl, same, ground (arith, fewer))))
      | inr short ↦ rw short (inl (refl, ground arith))
    ])
