-- ===== src/Client/Loop/Failures.antt =====
-- A typed line in the loop, and what a call that fails does to the loop.
use inter_process_communicat.Base.{
  ◌<◌, ◌≡◌, refl, ap, ◌∙◌, true, false, some, List, ◌∷◌, ◌++◌, length, defined, ◌>>=◌,
}
use inter_process_communicat.Base.Int.{ℤ, IsInt32}
use inter_process_communicat.Base.Text.{codes, decimal_ℤ}
use inter_process_communicat.Protocol.{Bytes, SubmitResponse}
use inter_process_communicat.Errors.{is_success, handle_regular_error}
use inter_process_communicat.Client.{ClientCodec, Socket, returned}
use inter_process_communicat.Client.Tokens.{insensitive_equals, make_math, make_str}
use inter_process_communicat.Protocol.{str_concat}
use inter_process_communicat.Client.Commands.{is_math_word, math_op, read_line}
use inter_process_communicat.Client.Commands.Laws.{IsWord, spaced}
use inter_process_communicat.Client.Commands.Lines.{IsLine, read_line-text}
use inter_process_communicat.Client.Session.{
  Session, Prompt, say, mode_of, submit, after_math, after_str,
}
use inter_process_communicat.Client.Loop.{on_line, on_input, iterate, exits, proceed, run_loop}
use inter_process_communicat.Client.Loop.Words.{IsMode}
use inter_process_communicat.Client.Loop.Commands.{on_line-math, on_line-concat}

-- The session in which a line is handled.
abbrev pub prompted : Session → Bytes → Session
prompted s rest = record (say (codes ">> ") s) { input = rest }

module _ (codec : ClientCodec) where
  iterate-line :
      (p : Prompt) (s : Session) (line rest : Bytes)
      → IsLine line
      → length line < 511
      → s.input ≡ line ++ (10 ∷ rest)
      → iterate codec p s ≡ on_line codec line p (prompted s rest)
  unfolding iterate on_input
  iterate-line p s line rest is_line short e =
      ap (λ o. on_input codec o p (say (codes ">> ") s))
        (ap read_line e ∙ read_line-text line rest is_line short)

  -- A line that is next in the input is handled, and the loop goes on as that says.
  pub run_loop-line :
      (p : Prompt) (ps : List Prompt) (s : Session) (line rest : Bytes)
      → p.sig_stop ≡ false
      → IsLine line
      → length line < 511
      → s.input ≡ line ++ (10 ∷ rest)
      → run_loop codec (p ∷ ps) s
        ≡ (on_line codec line p (prompted s rest) >>= proceed (λ t. run_loop codec ps t))
  unfolding run_loop
  run_loop-line p ps s line rest calm is_line short e =
      simp (calm, iterate-line p s line rest is_line short e) refl

  -- A line of at most 510 bytes for an arithmetic operation of two `int`s, its words of at most 31 bytes,
  -- whose request fails, such as one that is not answered in time, ends a client that is not stopped
  -- before with the code of the failure: what is typed after it is not read.
  pub run_loop-math_fails :
      (w o : Bytes) (a b : ℤ) (p : Prompt) (ps : List Prompt) (s : Session) (rest : Bytes)
      (code : ℤ) (socket : Socket) (response : SubmitResponse)
      → IsWord 31 w
      → IsMode w
      → IsWord 31 o
      → is_math_word o ≡ true
      → IsInt32 a
      → IsInt32 b
      → p.sig_stop ≡ false
      → IsLine (spaced w (spaced o (spaced (decimal_ℤ a) (decimal_ℤ b))))
      → length (spaced w (spaced o (spaced (decimal_ℤ a) (decimal_ℤ b)))) < 511
      → s.input ≡ spaced w (spaced o (spaced (decimal_ℤ a) (decimal_ℤ b))) ++ (10 ∷ rest)
      → submit codec (mode_of w o) (make_math (math_op o) a b) p.exchange s.socket
        ≡ returned code socket response
      → is_success code ≡ false
      → run_loop codec (p ∷ ps) s
        ≡ defined (record {
          session = record (prompted s rest) { socket = socket };
          ending = some (exits code);
        })
  unfolding after_math handle_regular_error proceed
  run_loop-math_fails w o a b p ps s rest code socket response hw m ho math ha hb calm is_line short
        e call failed =
      run_loop-line p ps s _ rest calm is_line short e
      ∙ rw (on_line-math codec w o a b p (prompted s rest) hw m ho math ha hb, call, failed, failed)
          refl

  -- A line for a concatenation whose request fails says so, and the client goes on with the next line.
  pub run_loop-concat_fails :
      (w o s1 s2 : Bytes) (p : Prompt) (ps : List Prompt) (s : Session) (rest : Bytes) (code : ℤ)
      (socket : Socket) (response : SubmitResponse)
      → IsWord 31 w
      → IsMode w
      → IsWord 31 o
      → insensitive_equals o (codes "concat") ≡ true
      → IsWord 63 s1
      → IsWord 63 s2
      → p.sig_stop ≡ false
      → IsLine (spaced w (spaced o (spaced s1 s2)))
      → length (spaced w (spaced o (spaced s1 s2))) < 511
      → s.input ≡ spaced w (spaced o (spaced s1 s2)) ++ (10 ∷ rest)
      → submit codec (mode_of w o) (make_str str_concat s1 s2) p.exchange s.socket
        ≡ returned code socket response
      → is_success code ≡ false
      → run_loop codec (p ∷ ps) s
        ≡ run_loop codec ps
            (say (codes "error sending request\n") (record (prompted s rest) { socket = socket }))
  unfolding after_str proceed
  run_loop-concat_fails w o s1 s2 p ps s rest code socket response hw m ho concat h1 h2 calm is_line
        short e call failed =
      run_loop-line p ps s _ rest calm is_line short e
      ∙ rw (on_line-concat codec w o s1 s2 p (prompted s rest) hw m ho concat h1 h2, call, failed)
          refl
