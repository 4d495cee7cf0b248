-- ===== src/Client/Loop/Commands.antt =====
-- What a line that is typed asks for.
use inter_process_communicat.Base.{
  ◌++◌, none, ℕ, ◌^◌, ◌<◌, ◌≡◌, refl, ◌∙◌, true, some, [], ◌∷◌, arith, defined,
}
use inter_process_communicat.Base.Int.{ℤ, IsInt32}
use inter_process_communicat.Base.Eq.{nat_eq}
use inter_process_communicat.Base.Dict.{find}
use inter_process_communicat.Base.Text.{codes, decimal, decimal_ℤ}
use inter_process_communicat.Protocol.{
  Bytes, no_wait, wait_up_to, str_concat, str_find_start, new_get_response,
}
use inter_process_communicat.Client.{ClientCodec}
use inter_process_communicat.Client.Submit.{get_result}
use inter_process_communicat.Client.Tokens.{
  insensitive_equals, is_nonblock_token, is_block_token, make_math, make_str,
}
use inter_process_communicat.Client.Scan.Laws.{strtoull-decimal}
use inter_process_communicat.Client.Commands.{is_math_word, math_op}
use inter_process_communicat.Client.Commands.Laws.{
  IsWord, spaced, scan_word-word, scan_mode-words, scan_ints-words, scan_texts-words,
  scan_get-ticket, scan_get-ms,
}
use inter_process_communicat.Client.Session.{
  goes_on, say, Session, Prompt, mode_of, after_get_call, after_math, after_str, submit, get_as,
  get_pending, on_get, on_math, on_str,
}
use inter_process_communicat.Client.Loop.{on_op, on_mode, on_command, on_line}
use inter_process_communicat.Client.Loop.Words.{
  IsMode, insensitive_equals-spaced, not_mode, get_no_mode, list_no_mode, not_math, concat_no_math,
  find_no_math, find_no_concat, some_mode, wait_named-wait,
}

module _ (codec : ClientCodec) where
  -- A line with spaces is a command.
  on_line-spaced :
      (w s : Bytes) (p : Prompt) (t : Session)
      → IsWord 31 w
      → on_line codec (spaced w s) p t ≡ on_command codec (some (w, 32 ∷ s)) (spaced w s) p t
  unfolding on_line
  on_line-spaced [] s p t (l, n, u) = absurd (omega arith)
  on_line-spaced (c ∷ w) s p t h =
      rw
        (
          insensitive_equals-spaced (c ∷ w) s (codes "quit") refl,
          insensitive_equals-spaced (c ∷ w) s (codes "exit") refl,
          insensitive_equals-spaced (c ∷ w) s (codes "help") refl,
          scan_word-word 32 31 (c ∷ w) (32 ∷ s) (omega arith) h refl,
        )
        refl

  -- A mode and an operation.
  on_line-mode :
      (w o rest : Bytes) (p : Prompt) (t : Session)
      → IsWord 31 w
      → IsMode w
      → IsWord 31 o
      → on_line codec (spaced w (spaced o rest)) p t
        ≡ on_op codec (mode_of w o) (spaced w (spaced o rest)) p t
  unfolding on_command on_mode
  on_line-mode w o rest p t hw m ho =
      on_line-spaced w (spaced o rest) p t hw
      ∙ rw
          (
            not_mode w (codes "get") get_no_mode m,
            not_mode w (codes "list") list_no_mode m,
            scan_mode-words w o (32 ∷ rest) hw ho refl,
            some_mode (is_nonblock_token w) (is_block_token w) m,
          )
          refl

  -- A line that is made of a word for a mode and a word for an arithmetic operation, each of at most 31
  -- bytes, and two `int`s, each printed in decimal, asks for exactly that operation of exactly these
  -- numbers.
  pub on_line-math :
      (w o : Bytes) (a b : ℤ) (p : Prompt) (t : Session)
      → IsWord 31 w
      → IsMode w
      → IsWord 31 o
      → is_math_word o ≡ true
      → IsInt32 a
      → IsInt32 b
      → on_line codec (spaced w (spaced o (spaced (decimal_ℤ a) (decimal_ℤ b)))) p t
        ≡ defined (
            after_math
              (mode_of w o)
              t
              (submit codec (mode_of w o) (make_math (math_op o) a b) p.exchange t.socket))
  unfolding on_op on_math
  on_line-math w o a b p t hw m ho math ha hb =
      on_line-mode w o (spaced (decimal_ℤ a) (decimal_ℤ b)) p t hw m ho
      ∙ rw (math, scan_ints-words w o a b hw ho ha hb) refl

  -- A line that is made of a word for a mode, `concat` as a user may spell it, and two words of at most
  -- 63 bytes, asks for exactly the concatenation of these words.
  pub on_line-concat :
      (w o s1 s2 : Bytes) (p : Prompt) (t : Session)
      → IsWord 31 w
      → IsMode w
      → IsWord 31 o
      → insensitive_equals o (codes "concat") ≡ true
      → IsWord 63 s1
      → IsWord 63 s2
      → on_line codec (spaced w (spaced o (spaced s1 s2))) p t
        ≡ defined (
            after_str
              (codes "error sending request\n")
              (mode_of w o)
              t
              (submit codec (mode_of w o) (make_str str_concat s1 s2) p.exchange t.socket))
  unfolding on_op on_str
  on_line-concat w o s1 s2 p t hw m ho concat h1 h2 =
      on_line-mode w o (spaced s1 s2) p t hw m ho
      ∙ rw
          (
            not_math o (codes "concat") concat_no_math concat,
            concat,
            scan_texts-words w o s1 s2 hw ho h1 h2,
          )
          refl

  -- The same for `find`, which asks for the position of the second word in the first.
  pub on_line-find :
      (w o s1 s2 : Bytes) (p : Prompt) (t : Session)
      → IsWord 31 w
      → IsMode w
      → IsWord 31 o
      → insensitive_equals o (codes "find") ≡ true
      → IsWord 63 s1
      → IsWord 63 s2
      → on_line codec (spaced w (spaced o (spaced s1 s2))) p t
        ≡ defined (
            after_str
              (codes "Error sending request\n")
              (mode_of w o)
              t
              (submit codec (mode_of w o) (make_str str_find_start s1 s2) p.exchange t.socket))
  unfolding on_op on_str
  on_line-find w o s1 s2 p t hw m ho find h1 h2 =
      on_line-mode w o (spaced s1 s2) p t hw m ho
      ∙ rw
          (
            not_math o (codes "find") find_no_math find,
            find_no_concat o find,
            find,
            scan_texts-words w o s1 s2 hw ho h1 h2,
          )
          refl

  -- A line that is made of `get` as a user may spell it and the decimal number of a pending ticket asks
  -- for that ticket, without a wait; with `wait` and a number of milliseconds behind it, for at most
  -- these.
  pub on_line-get :
      (w v : Bytes) (n ms ticket : ℕ) (p : Prompt) (t : Session)
      → IsWord 31 w
      → insensitive_equals w (codes "get") ≡ true
      → IsWord 31 v
      → insensitive_equals v (codes "wait") ≡ true
      → n < 2 ^ 64
      → ms < 2 ^ 32
      → find n t.pending ≡ some ticket
      → (on_line codec (spaced w (decimal n)) p t
          ≡ defined (
              after_get_call n t
                (get_result codec ticket no_wait 0 new_get_response p.exchange t.socket)))
        × (on_line codec (spaced w (spaced (decimal n) (spaced v (decimal ms)))) p t
            ≡ defined (
                after_get_call n t
                  (get_result codec ticket wait_up_to ms new_get_response p.exchange t.socket)))
  unfolding on_command on_get get_pending get_as
  on_line-get w v n ms ticket p t hw get hv wait h hms pending = (
    on_line-spaced w (decimal n) p t hw
        ∙ rw (get, scan_get-ticket w n hw (omega arith), strtoull-decimal n h, pending) refl,
    on_line-spaced w (spaced (decimal n) (spaced v (decimal ms))) p t hw
        ∙ rw
            (
              get,
              scan_get-ms w v n ms hw hv (omega arith) hms,
              wait_named-wait v ms wait,
              strtoull-decimal n h,
              pending,
            )
            refl,
  )

  -- A `get` of a number under which no ticket is pending says so, and sends nothing.
  pub on_line-unknown :
      (w : Bytes) (n : ℕ) (p : Prompt) (t : Session)
      → IsWord 31 w
      → insensitive_equals w (codes "get") ≡ true
      → n < 2 ^ 64
      → find n t.pending ≡ none
      → on_line codec (spaced w (decimal n)) p t
        ≡ defined (
            goes_on
              (say (codes "Unknown or already consumed ticket: " ++ decimal n ++ codes "\n") t))
  unfolding on_command on_get get_pending
  on_line-unknown w n p t hw get h absent =
      on_line-spaced w (decimal n) p t hw
      ∙ rw (get, scan_get-ticket w n hw (omega arith), strtoull-decimal n h, absent) refl
