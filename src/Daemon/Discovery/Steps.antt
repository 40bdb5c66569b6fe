-- ===== src/Daemon/Discovery/Steps.antt =====
-- scanbus-daemon/src/discovery.rs: what a step of the session's task leaves.
use scanbus_service.Common.{
  ◌≡◌, refl, true, false, Option, none, some, List, [], ◌∷◌, map, arith, Bool-cases, inl, inr,
}
use scanbus_service.Core.Id.{ScannerId}
use scanbus_service.Core.Model.{ScannerInfo}
use scanbus_service.Daemon.Backends.{RankedBackend}
use scanbus_service.Daemon.Objects.{Zbus}
use scanbus_service.Daemon.Scanners.{Registry, Std}
use scanbus_service.Daemon.Scanners.Index.{IsWell}
use scanbus_service.Daemon.Scanners.Sound.{observe-IsWell}
use scanbus_service.Daemon.Scanners.Steady.{end_discovery-IsWell}
use scanbus_service.Daemon.Scanners.Run.{mark_unseen_offline-IsWell}
use scanbus_service.Daemon.Discovery.{
  Stage, Session, is_over, Step, answered, panicked, published, joined, looked, woken, heard,
  is_flying, probing_step, publishing_step, marked_step, pausing_step, task_step,
}
use scanbus_service.Daemon.Discovery.Quiet.{IsQuiet, end_discovery-IsQuiet}

-- What a step of the task leaves: the signal as it was, the index kept, and nothing of the session if the
-- task is over without the signal.
abbrev pub IsNext : Session → Option (Session × Registry) → Type 0
IsNext session none = Unit
IsNext session (some (t, r)) =
    (t.stop ≡ session.stop) × IsWell r × (session.stop ≡ false → is_over t.stage ≡ true → IsQuiet r)

module _ (std : Std) (z : Zbus) (session : Session) (r : Registry) where
  probing_step-IsNext :
      (flying : List RankedBackend) (seen : List ScannerId) (step : Step)
      → IsWell r
      → IsNext session (probing_step std flying seen z step session r)
  probing_step-IsNext flying seen (answered backend infos) h =
      elim (Bool-cases (is_flying backend flying)) [
        | inr gone ↦ rw (probing_step, gone) tt
        | inl there ↦ elim (Bool-cases (session.stop)) [
          | inl told ↦
              rw (probing_step, there, told) (refl, h, λ untold over. absurd (ground arith))
          | inr untold ↦ rw (probing_step, there, untold) (refl, h, λ u over. absurd (ground arith))
        ]
      ]
  probing_step-IsNext flying seen (panicked backend) h =
      elim (Bool-cases (is_flying backend flying)) [
        | inr gone ↦ rw (probing_step, gone) tt
        | inl there ↦ rw (probing_step, there) (refl, h, λ u over. absurd (ground arith))
      ]
  probing_step-IsNext [] seen joined h = (
    refl,
    mark_unseen_offline-IsWell std z (map (λ b. b.backend) session.backends) seen r h,
    λ u over. absurd (ground arith),
  )
  probing_step-IsNext (_ ∷ _) seen joined h = tt
  probing_step-IsNext flying seen published h = tt
  probing_step-IsNext flying seen (looked limit) h = tt
  probing_step-IsNext flying seen woken h = tt
  probing_step-IsNext flying seen heard h = tt

  publishing_step-IsNext :
      (from : RankedBackend) (infos : List ScannerInfo) (flying : List RankedBackend)
      (seen : List ScannerId) (step : Step)
      → IsWell r
      → IsNext session (publishing_step std from infos flying seen z step session r)
  publishing_step-IsNext from [] flying seen published h =
      (refl, h, λ u over. absurd (ground arith))
  publishing_step-IsNext from (info ∷ infos) flying seen published h =
      (refl, observe-IsWell std z from.rank from.backend info r h, λ u over. absurd (ground arith))
  publishing_step-IsNext from infos flying seen (answered _ _) h = tt
  publishing_step-IsNext from infos flying seen (panicked _) h = tt
  publishing_step-IsNext from infos flying seen joined h = tt
  publishing_step-IsNext from infos flying seen (looked _) h = tt
  publishing_step-IsNext from infos flying seen woken h = tt
  publishing_step-IsNext from infos flying seen heard h = tt

  marked_step-IsNext : (step : Step) → IsWell r → IsNext session (marked_step std z step session r)
  marked_step-IsNext (looked true) h =
      (refl, end_discovery-IsWell z r h, λ u over. end_discovery-IsQuiet z r h)
  marked_step-IsNext (looked false) h = (refl, h, λ u over. absurd (ground arith))
  marked_step-IsNext (answered _ _) h = tt
  marked_step-IsNext (panicked _) h = tt
  marked_step-IsNext published h = tt
  marked_step-IsNext joined h = tt
  marked_step-IsNext woken h = tt
  marked_step-IsNext heard h = tt

  pausing_step-IsNext : (step : Step) → IsWell r → IsNext session (pausing_step std step session r)
  pausing_step-IsNext woken h = (refl, h, λ u over. absurd (ground arith))
  pausing_step-IsNext heard h = elim (Bool-cases (session.stop)) [
    | inl told ↦ rw (pausing_step, told) (refl, h, λ untold over. absurd (ground arith))
    | inr untold ↦ rw (pausing_step, untold) tt
  ]
  pausing_step-IsNext (answered _ _) h = tt
  pausing_step-IsNext (panicked _) h = tt
  pausing_step-IsNext published h = tt
  pausing_step-IsNext joined h = tt
  pausing_step-IsNext (looked _) h = tt

  pub stage_cases :
      (step : Step) (stage : Stage)
      → session.stage ≡ stage
      → IsWell r
      → IsNext session (task_step std z step session r)
  unfolding task_step
  stage_cases step (Stage.probing flying seen) at h =
      rw (task_step, at) (probing_step-IsNext flying seen step h)
  stage_cases step (Stage.publishing from infos flying seen) at h =
      rw (task_step, at) (publishing_step-IsNext from infos flying seen step h)
  stage_cases step Stage.marked at h = rw (task_step, at) (marked_step-IsNext step h)
  stage_cases step Stage.pausing at h = rw (task_step, at) (pausing_step-IsNext step h)
  stage_cases step Stage.over at h = rw (task_step, at) tt
