-- ===== src/System/TwoRounds.antt =====
-- Two rounds of the loop of the server with a message each.
use inter_process_communicat.Base.{
  ◌≡◌, refl, ap, ◌∙◌, true, false, List, [], ◌∷◌, ◌++◌, some, none, defined, ◌>>=◌,
}
use inter_process_communicat.Base.Eq.{nat_eq, bytes_eq}
use inter_process_communicat.Protocol.{Bytes}
use inter_process_communicat.Runner.{Runner}
use inter_process_communicat.Runner.Workers.{turns}
use inter_process_communicat.Runner.Handle.{holding, work, work_impl}
use inter_process_communicat.Server.{Application, Codec, Round, more, last}
use inter_process_communicat.Server.Loop.{
  Ran, Rounded, again, iterate, proceed, proceed_as, run_loop, run, body,
}
use inter_process_communicat.System.Relay.{rounded}

-- The workers take their turns, and the message is answered.
iterate_once :
    (theirs : Codec) (app : Application) (r q : Runner) (round : Round) (x : Rounded)
    → app.algo_runner.impl ≡ some r
    → turns r round.others ≡ defined q
    → body theirs (record app { algo_runner = holding app.algo_runner q }) round ≡ defined (some x)
    → iterate theirs app round ≡ defined (some x)
unfolding iterate work work_impl
iterate_once theirs app r q round x has worked one = rw (has, worked, one) refl

loop_once :
    (theirs : Codec) (app : Application) (round : Round) (rounds : List Round) (x : Rounded)
    → app.initialized ≡ true
    → round.sig_stop ≡ false
    → iterate theirs app round ≡ defined (some x)
    → x.then_do ≡ again
    → run_loop theirs app (round ∷ rounds) ≡ (
        run_loop theirs x.app rounds >>= λ y.
        defined (record { app = y.app; frames = x.frames ++ y.frames; code = y.code }))
unfolding run_loop proceed proceed_as
loop_once theirs app round rounds x live calm ran next = simp (live, calm, ran, next) refl

run-live :
    (theirs : Codec) (app : Application) (rounds : List Round)
    → app.initialized ≡ true
    → run theirs app rounds ≡ run_loop theirs app rounds
unfolding run
run-live theirs app rounds live = simp live refl

-- Two rounds of the loop, each with a message that is answered, and the workers before the second.
pub two_rounds :
    (theirs : Codec) (app : Application) (r issued q last_one : Runner) (id told reply : Bytes)
    (first second : Round)
    → app.initialized ≡ true
    → app.algo_runner.impl ≡ some r
    → first.sig_stop ≡ false
    → first.others ≡ []
    → second.sig_stop ≡ false
    → body theirs (record app { algo_runner = holding app.algo_runner r }) first
      ≡ defined (some (rounded app id told (holding app.algo_runner issued)))
    → turns issued second.others ≡ defined q
    → body theirs (record app { algo_runner = holding app.algo_runner q }) second
      ≡ defined (some (rounded app id reply (holding app.algo_runner last_one)))
    → (served : Ran) × (run theirs app (first ∷ second ∷ []) ≡ defined served)
      × (served.frames ≡ more id ∷ last told ∷ more id ∷ last reply ∷ [])
unfolding run_loop turns
two_rounds theirs app r issued q last_one id told reply first second live has calm idle quiet one
      worked two =
    let again_app : Application = record app { algo_runner = holding app.algo_runner issued } in
    let x₁ = rounded app id told (holding app.algo_runner issued) in
    let x₂ = rounded app id reply (holding app.algo_runner last_one) in
    let none_between : turns r first.others ≡ defined r = rw idle refl in
    let run₁ =
      loop_once theirs app first (second ∷ []) x₁ live calm
        (iterate_once theirs app r r first x₁ has none_between one) refl in
    let run₂ =
      loop_once theirs again_app second [] x₂ live quiet
        (iterate_once theirs again_app issued q second x₂ refl worked two) refl in
    (
      record {
        app = record app { algo_runner = holding app.algo_runner last_one };
        frames = more id ∷ last told ∷ more id ∷ last reply ∷ [];
        code = none;
      },
      run-live theirs app (first ∷ second ∷ []) live
          ∙ run₁
          ∙ ap
              (λ m. m >>= λ (y : Ran).
                defined (record { app = y.app; frames = x₁.frames ++ y.frames; code = y.code }))
              run₂,
      refl,
    )
