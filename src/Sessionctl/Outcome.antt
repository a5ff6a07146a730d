-- ===== src/Sessionctl/Outcome.antt =====
-- What a run of mitos-sessionctl prints and how it exits (`run` and `main` in
-- bin/mitos-sessionctl.rs).
use mitos_session.Base.{ℕ, ◌≡◌, some, arith}
use mathlib.Core.Option
use mitos_session.Errors.{SessionError, err}
use mitos_session.Ipc.{Request, Packet}
use mitos_session.Ipc.Framing.{Codec}
use mitos_session.Sessionctl.{Cli, Outside, prepare, prompted, run, exit, after_prompt, main}

module _ (fuel : ℕ) (requests : Codec Request) (replies : Codec Packet) (outside : Outside)
    (cli : Cli) where
  -- A run that cannot connect, or cannot make its request, sends nothing and fails with that error.
  main-unprepared :
      (e : SessionError)
      → prepare outside cli ≡ err e
      → main fuel requests replies outside cli
        ≡ some (after_prompt (prompted outside cli) (exit (err e)))
  unfolding main run
  main-unprepared e h = ground (arith, h)
