-- ===== src/Client/Loop/Listing.antt =====
-- What the command `list` prints.
use inter_process_communicat.Base.{
  ℕ, ◌≡◌, refl, ap, ◌∙◌, ◌⊎◌, inl, inr, List, [], ◌∷◌, ◌++◌, defined, count,
}
use mathlib.Core.List.{Perm}
use inter_process_communicat.Base.Eq.{nat_eq}
use inter_process_communicat.Base.Dict.{Dict, find}
use inter_process_communicat.Base.Text.{codes, decimal}
use inter_process_communicat.Protocol.{Bytes}
use inter_process_communicat.Client.{ClientCodec, Socket}
use inter_process_communicat.Client.Tokens.{insensitive_equals}
use inter_process_communicat.Client.Scan.{
  next_word, store, scan_word, skip_space, word_at, take_word,
}
use inter_process_communicat.Client.Session.{Session, Prompt, goes_on, say, list_lines, list_text}
use inter_process_communicat.Client.Session.Keys.{keys, present, IsOnce, count-Perm}
use inter_process_communicat.Client.Loop.{on_command, on_line, Ran, run}
use inter_process_communicat.Client.Loop.Ends.{run-IsKeyed}

-- A line for each number.
abbrev pub ticket_lines : List ℕ → Bytes
ticket_lines [] = []
ticket_lines (k ∷ ks) = codes "  " ++ decimal k ++ codes "\n" ++ ticket_lines ks

list_lines-keys : (m : Dict ℕ ℕ) → list_lines m ≡ ticket_lines (keys m)
unfolding list_lines
list_lines-keys [] = refl
list_lines-keys ((k, v) ∷ m) =
    ap (λ t. codes "  " ++ decimal k ++ codes "\n" ++ t) (list_lines-keys m)

-- The text is that of no tickets, or has one line for each number that is pending, and no other.
abbrev pub IsListing : Dict ℕ ℕ → Bytes → Type 0
IsListing m text =
    ((m ≡ []) × (text ≡ codes "No pending tickets.\n"))
    ⊎ ((ks : List ℕ) × (text ≡ codes "Pending tickets:\n" ++ ticket_lines ks)
        × ((k : ℕ) → count k ks ≡ present (find k m)))

list_text-IsListing :
    (order : Dict ℕ ℕ → Dict ℕ ℕ) (m : Dict ℕ ℕ)
    → Perm (order m) m
    → IsOnce m
    → IsListing m (list_text order m)
unfolding list_text
list_text-IsListing order [] same once = inl (refl, refl)
list_text-IsListing order (e ∷ m) same once = inr (
  keys (order (e ∷ m)),
  ap (λ t. codes "Pending tickets:\n" ++ t) (list_lines-keys (order (e ∷ m))),
  λ k. count-Perm k same ∙ once k,
)

on_line-list :
    (codec : ClientCodec) (p : Prompt) (s : Session)
    → on_line codec (codes "list") p s ≡ defined (goes_on (say (list_text p.order s.pending) s))
unfolding on_line on_command insensitive_equals scan_word store next_word skip_space word_at
    take_word
on_line-list codec p s = refl

-- In a session that `run` comes to, the command `list` prints that nothing is pending, if nothing is, or
-- else one line for each number for which a `get` finds a pending ticket, and no other line, in
-- whatever order the map is iterated; and the client goes on.
pub run-IsListing :
    (codec : ClientCodec) (ps : List Prompt) (input : Bytes) (socket : Socket) (r : Ran)
    (p : Prompt)
    → run codec ps input socket ≡ defined r
    → Perm (p.order r.session.pending) r.session.pending
    → (text : Bytes) × (on_line codec (codes "list") p r.session
        ≡ defined (goes_on (say text r.session)))
      × IsListing r.session.pending text
run-IsListing codec ps input socket r p ran same =
    let (keyed, once) = run-IsKeyed codec ps input socket r ran in
    (
      list_text p.order r.session.pending,
      on_line-list codec p r.session,
      list_text-IsListing p.order r.session.pending same once,
    )
