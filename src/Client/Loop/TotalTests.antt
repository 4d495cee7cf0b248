-- ===== src/Client/Loop/TotalTests.antt =====
-- One sum, whose numbers fit.
use inter_process_communicat.Base.{
  ℕ, zero, suc, ◌^◌, ◌<◌, ◌≡◌, ◌≢◌, refl, sym, ap, ◌∙◌, subst, inl, inr, false, none, some, List,
  [], ◌∷◌, arith, defined,
}
use inter_process_communicat.Base.Int.{pos, IsInt32}
use inter_process_communicat.Base.Text.{codes, read_digits}
use inter_process_communicat.Protocol.{Bytes}
use inter_process_communicat.Client.Scan.{
  take_line, fgets, c_string, chomp, skip_space, take_word, word_at, next_word, store, scan_word,
  digits_at, signed_at, scan_number, int_of, scan_int,
}
use inter_process_communicat.Client.Commands.{after_word, read_line}
use inter_process_communicat.Client.Session.{Prompt}
use inter_process_communicat.Client.Loop.{Ending, Ran, run_loop}
use inter_process_communicat.Client.Loop.Undefined.{NoInt, NoUnsigned}
use inter_process_communicat.Client.Loop.Total.{Reads, now, later, IsBad, run_loop-returns}
use inter_process_communicat.Client.Loop.Tests.{sevens, one_answer, typed, small_sum}

abbrev times : ℕ → Prompt → List Prompt
times zero p = []
times (suc n) p = p ∷ times n p

abbrev sum_line : Bytes
sum_line = codes "async add 2 3"

one_line : read_line small_sum ≡ some (sum_line, [])
unfolding read_line fgets take_line c_string chomp
one_line = refl

no_line : read_line [] ≡ none
unfolding read_line fgets
no_line = refl

no_line-Reads : {input line : Bytes} → Reads line input → input ≢ []
no_line-Reads (now rest e) at = let h = sym (ap read_line at ∙ no_line) ∙ e in cc
no_line-Reads (later first rest e reads) at = let h = sym (ap read_line at ∙ no_line) ∙ e in cc

sum_line-only :
    {input : Bytes} (line : Bytes) → Reads line input → input ≡ small_sum → line ≡ sum_line
sum_line-only line (now rest e) at = let h = sym (ap read_line at ∙ one_line) ∙ e in cc
sum_line-only line (later first rest e reads) at =
    let h = sym (ap read_line at ∙ one_line) ∙ e in
    let over : rest ≡ [] = cc in absurd (no_line-Reads reads over)

not-NoInt :
    (s : Bytes) (n : ℕ) (rest : Bytes)
    → scan_number s ≡ some (false, n, rest)
    → IsInt32 (pos n)
    → ¬ NoInt s
not-NoInt s n rest e fits (minus, m, behind, found, out) =
    let h = sym e ∙ found in
    let plus : minus ≡ false = cc in let same : m ≡ n = cc in out (rw (plus, same) fits)

not-NoUnsigned :
    (s : Bytes) (n : ℕ) (rest : Bytes)
    → scan_number s ≡ some (false, n, rest)
    → n < 2 ^ 32
    → ¬ NoUnsigned s
not-NoUnsigned s n rest e fits (minus, m, behind, found, out) =
    let h = sym e ∙ found in
    let plus : minus ≡ false = cc in let same : m ≡ n = cc in omega (arith, same, out, fits)

two : scan_number (after_word (after_word sum_line)) ≡ some (false, 2, codes " 3")
unfolding scan_number skip_space digits_at signed_at read_digits after_word scan_word store
    next_word word_at take_word
two = refl

first_int : scan_int (after_word (after_word sum_line)) ≡ defined (some (pos 2, codes " 3"))
unfolding scan_int int_of
first_int = rw two refl

three : scan_number (codes " 3") ≡ some (false, 3, [])
unfolding scan_number skip_space digits_at signed_at read_digits
three = refl

add_word : next_word 63 (after_word sum_line) ≡ some (codes "add", codes " 2 3")
unfolding after_word scan_word store next_word word_at take_word skip_space
add_word = refl

two_word : next_word 31 (codes " 2 3") ≡ some (codes "2", codes " 3")
unfolding scan_word store next_word word_at take_word skip_space
two_word = refl

sum_line-fine : ¬ IsBad sum_line
sum_line-fine (inl (ticket, behind, word, rest, e, e', wild)) =
    let h = sym add_word ∙ e in
    let at : behind ≡ codes " 2 3" = cc in
    let h' = sym (ap (next_word 31) at ∙ two_word) ∙ e' in
    let same : rest ≡ codes " 3" = cc in
    not-NoUnsigned rest 3 [] (ap scan_number same ∙ three) (omega arith) wild
sum_line-fine (inr (inl wild)) =
    not-NoInt (after_word (after_word sum_line)) 2 (codes " 3") two (omega arith, omega arith) wild
sum_line-fine (inr (inr (a, rest, e, wild))) =
    let h = sym first_int ∙ e in
    let same : rest ≡ codes " 3" = cc in
    not-NoInt rest 3 [] (ap scan_number same ∙ three) (omega arith, omega arith) wild

sum_line-all : (line : Bytes) → Reads line small_sum → ¬ IsBad line
sum_line-all line reads bad = sum_line-fine (subst IsBad (sum_line-only line reads refl) bad)

run_loop-returns_example :
    (r : Ran) × (e : Ending) × (run_loop sevens (times 20 one_answer) (typed small_sum) ≡ defined r)
    × (r.ending ≡ some e)
run_loop-returns_example =
    run_loop-returns sevens (times 20 one_answer) (typed small_sum) (omega arith) sum_line-all
