-- ===== src/Manager/Logs.antt =====
-- manager.go: what the end of a log file is.
use tor_country_manager.Shared.{
  ℕ, suc, ◌-◌, ◌≤◌, false, List, [], ◌∷◌, ◌++◌, if◌then◌else◌, ◌==◌, ◌≡◌, refl, sym, ap, ◌∙◌, arith,
  length, drop, length-append, Bool-cases, inl, inr,
}
use tor_country_manager.Shared.Text.{Text}
use tor_country_manager.Manager.Control.{tail_loop}
use mathlib.Core.List.{append_assoc, append-nil}

-- The last lines of a list.
abbrev pub last_lines : ℕ → List Text → List Text
last_lines n ls = drop (length ls - n) ls

-- One more line in front, of more lines than are asked for.
last_lines-cons :
    (n : ℕ) (x : Text) (ls : List Text) → n ≤ length ls → last_lines n (x ∷ ls) ≡ last_lines n ls
last_lines-cons n x ls l =
    let e : suc (length ls) - n ≡ suc (length ls - n) = omega (arith, l) in
    ap (λ k. drop k (x ∷ ls)) e

last_lines-all : (n : ℕ) (ls : List Text) → length ls ≤ n → last_lines n ls ≡ ls
last_lines-all n ls l = let e : length ls - n ≡ 0 = omega (arith, l) in ap (λ k. drop k ls) e

kept : ℕ → List Text → Text → List Text
kept lines buffer x = (if length buffer == lines then drop 1 buffer else buffer) ++ (x ∷ [])

kept-last :
    (lines : ℕ) (buffer : List Text) (x : Text) (ls : List Text)
    → 1 ≤ lines
    → length buffer ≤ lines
    → (length (kept lines buffer x) ≤ lines)
      × (last_lines lines (kept lines buffer x ++ ls) ≡ last_lines lines (buffer ++ (x ∷ ls)))
unfolding kept
kept-last lines [] x ls p l =
    let e : (0 == lines) ≡ false = ground arith in rw e (omega arith, refl)
kept-last lines (b ∷ bs) x ls p l = elim (Bool-cases (suc (length bs) == lines)) [
  | inl e ↦
      let full : suc (length bs) ≡ lines = ground arith in
      let grown = length-append bs (x ∷ []) in
      let long = length-append bs (x ∷ ls) in
      rw e (
        omega (arith, full, grown),
        ap (last_lines lines) (append_assoc bs (x ∷ []) ls)
            ∙ sym (last_lines-cons lines b (bs ++ (x ∷ ls)) (omega (arith, full, long))),
      )
  | inr e ↦
      let grown = length-append bs (x ∷ []) in
      rw e (ground (arith, grown), ap (λ t. last_lines lines (b ∷ t)) (append_assoc bs (x ∷ []) ls))
]

tail_loop-last :
    (lines : ℕ) (buffer ls : List Text)
    → 1 ≤ lines
    → length buffer ≤ lines
    → tail_loop lines buffer ls ≡ last_lines lines (buffer ++ ls)
unfolding tail_loop kept
tail_loop-last lines buffer [] p l =
    sym (ap (last_lines lines) (append-nil buffer) ∙ last_lines-all lines buffer l)
tail_loop-last lines buffer (x ∷ ls) p l =
    let (short, last) = kept-last lines buffer x ls p l in
    tail_loop-last lines (kept lines buffer x) ls p short ∙ last

-- The loop that reads a log keeps exactly the last lines of the file, as many as it is asked for or all
-- there are, if at least one is asked for.
pub tail_loop-lem :
    (lines : ℕ) (file : List Text)
    → 1 ≤ lines
    → tail_loop lines [] file ≡ drop (length file - lines) file
tail_loop-lem lines file p = tail_loop-last lines [] file p (omega arith)
