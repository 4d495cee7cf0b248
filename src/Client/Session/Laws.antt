-- ===== src/Client/Session/Laws.antt =====
-- What the commands leave of the input and of the pending tickets.
use inter_process_communicat.Base.{
  ℕ, ◌≡◌, refl, Bool, true, false, Bool-cases, inl, inr, Option, none, some, arith,
}
use inter_process_communicat.Base.Int.{ℤ}
use inter_process_communicat.Base.Eq.{nat_eq}
use inter_process_communicat.Base.Dict.{Dict, find, assign, erase, find-assign, find-erase}
use inter_process_communicat.Protocol.{Bytes, GetWaitMode, StrOp, SubmitResponse, GetResponse}
use inter_process_communicat.Errors.{is_success, handle_regular_error}
use inter_process_communicat.Client.{ClientCodec, Call, returned, thrown}
use inter_process_communicat.Client.Print.{is_not_finished}
use inter_process_communicat.Client.Commands.{GetLine, no_ticket, ticket_only, with_word, with_ms}
use inter_process_communicat.Client.Session.Keys.{IsOnce, assign-IsOnce, erase-IsOnce}
use inter_process_communicat.Client.Session.{
  Session, Prompt, Turn, goes_on, leaves, returns, raises, Mode, got, after_get_call, note_ticket,
  submitted, after_math, after_str, get_as, get_pending, on_get, on_math, on_str,
}

-- Each ticket stands once, under its own number.
abbrev pub IsKeyed : Dict ℕ ℕ → Type 0
IsKeyed m = ((k v : ℕ) → find k m ≡ some v → k ≡ v) × IsOnce m

assign-IsKeyed : (n : ℕ) (m : Dict ℕ ℕ) → IsKeyed m → IsKeyed (assign n n m)
assign-IsKeyed n m (keyed, once) =
    (λ k v e. ground (arith, find-assign n k n m, keyed k v), assign-IsOnce n n m once)

erase-IsKeyed : (n : ℕ) (m : Dict ℕ ℕ) → IsKeyed m → IsKeyed (erase n m)
erase-IsKeyed n m (keyed, once) =
    (λ k v e. ground (arith, find-erase n k m, keyed k v), erase-IsOnce n m once)

note_ticket-IsKeyed :
    (b : Bool) (o : Option ℕ) (m : Dict ℕ ℕ) → IsKeyed m → IsKeyed (note_ticket b o m)
unfolding note_ticket
note_ticket-IsKeyed b none m keyed = keyed
note_ticket-IsKeyed true (some n) m keyed = assign-IsKeyed n m keyed
note_ticket-IsKeyed false (some n) m keyed = keyed

-- A session that may follow another behind its reading.
abbrev pub Follows : Session → Session → Type 0
Follows s t = (t.input ≡ s.input) × (IsKeyed s.pending → IsKeyed t.pending)

-- A predicate of the session that a turn ends in.
abbrev pub OnTurn : (Session → Type 0) → Turn → Type 0
OnTurn P (goes_on s) = P s
OnTurn P (leaves s) = P s
OnTurn P (returns code s) = P s
OnTurn P (raises e s) = P s

got-Follows : (id : ℕ) (s : Session) (response : GetResponse) → Follows s (got id s response)
unfolding got
got-Follows id s response = elim (Bool-cases (is_not_finished response.status)) [
  | inl wait ↦ rw wait (refl, (λ keyed. keyed))
  | inr over ↦ rw over (refl, erase-IsKeyed id s.pending)
]

after_get_call-Follows :
    (id : ℕ) (s : Session) (c : Call GetResponse) → OnTurn (Follows s) (after_get_call id s c)
unfolding after_get_call
after_get_call-Follows id s (thrown e socket) = (refl, (λ keyed. keyed))
after_get_call-Follows id s (returned code socket response) = elim (Bool-cases (is_success code)) [
  | inl ok ↦ rw ok (got-Follows id (record s { socket = socket }) response)
  | inr failed ↦ rw failed (refl, (λ keyed. keyed))
]

submitted-Follows :
    (mode : Mode) (s : Session) (response : SubmitResponse) → Follows s (submitted mode s response)
unfolding submitted
submitted-Follows mode s response =
    (refl, note_ticket-IsKeyed mode.is_nonblocking response.ticket s.pending)

after_math-Follows :
    (mode : Mode) (s : Session) (c : Call SubmitResponse) → OnTurn (Follows s) (after_math mode s c)
unfolding after_math
after_math-Follows mode s (thrown e socket) = (refl, (λ keyed. keyed))
after_math-Follows mode s (returned code socket response) =
    elim (Bool-cases (is_success (handle_regular_error code))) [
      | inl ok ↦ rw ok (submitted-Follows mode (record s { socket = socket }) response)
      | inr failed ↦ rw failed (refl, (λ keyed. keyed))
    ]

after_str-Follows :
    (text : Bytes) (mode : Mode) (s : Session) (c : Call SubmitResponse)
    → OnTurn (Follows s) (after_str text mode s c)
unfolding after_str
after_str-Follows text mode s (thrown e socket) = (refl, (λ keyed. keyed))
after_str-Follows text mode s (returned code socket response) =
    elim (Bool-cases (is_success code)) [
      | inl ok ↦ rw ok (submitted-Follows mode (record s { socket = socket }) response)
      | inr failed ↦ rw failed (refl, (λ keyed. keyed))
    ]

module _ (codec : ClientCodec) where
  get_pending-Follows :
      (id : ℕ) (found : Option ℕ) (wait : Option (GetWaitMode × ℕ)) (p : Prompt) (s : Session)
      → OnTurn (Follows s) (get_pending codec id found wait p s)
  unfolding get_pending get_as
  get_pending-Follows id none wait p s = (refl, (λ keyed. keyed))
  get_pending-Follows id (some ticket) none p s = (refl, (λ keyed. keyed))
  get_pending-Follows id (some ticket) (some (mode, ms)) p s = after_get_call-Follows id s _

  pub on_get-Follows :
      (g : GetLine) (p : Prompt) (s : Session) → OnTurn (Follows s) (on_get codec g p s)
  unfolding on_get
  on_get-Follows no_ticket p s = (refl, (λ keyed. keyed))
  on_get-Follows (ticket_only text) p s = get_pending-Follows _ _ _ p s
  on_get-Follows (with_word text word) p s = get_pending-Follows _ _ _ p s
  on_get-Follows (with_ms text word ms) p s = get_pending-Follows _ _ _ p s

  pub on_math-Follows :
      (mode : Mode) (o : Option (ℤ × ℤ)) (p : Prompt) (s : Session)
      → OnTurn (Follows s) (on_math codec mode o p s)
  unfolding on_math
  on_math-Follows mode none p s = (refl, (λ keyed. keyed))
  on_math-Follows mode (some (a, b)) p s = after_math-Follows mode s _

  pub on_str-Follows :
      (op : StrOp) (usage failed : Bytes) (mode : Mode) (o : Option (Bytes × Bytes)) (p : Prompt)
      (s : Session)
      → OnTurn (Follows s) (on_str codec op usage failed mode o p s)
  unfolding on_str
  on_str-Follows op usage failed mode none p s = (refl, (λ keyed. keyed))
  on_str-Follows op usage failed mode (some (s1, s2)) p s = after_str-Follows failed mode s _
