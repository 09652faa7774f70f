-- ===== src/Pipeline/Envelope/Totals.antt =====
-- What the envelope stage counts over a whole run.
use kronical.Prelude.{◌≡◌, refl, List, [], ◌∷◌, ◌++◌, arith, if_elim, is_empty}
use kronical.Pipeline.{DeriveCommand, Send}
use kronical.Pipeline.Envelope.{Stage, handle, run, process_batch}
use kronical.Pipeline.Envelope.Counts.{
  hint_of, signal_of, hints_delta_of, signals_delta_of, total, total-append, process_batch_counts,
  process_tick_counts,
}

abbrev pub Balanced : List Send → Type 0
Balanced sends =
    (total hints_delta_of sends ≡ total hint_of sends)
    × (total signals_delta_of sends ≡ total signal_of sends)

Balanced-append : (xs ys : List Send) → Balanced xs → Balanced ys → Balanced (xs ++ ys)
Balanced-append xs ys a b = omega (
  arith,
  total-append hint_of xs ys,
  total-append signal_of xs ys,
  total-append hints_delta_of xs ys,
  total-append signals_delta_of xs ys,
)

handle-Balanced : (s : Stage) (c : DeriveCommand) → Balanced (handle s c).0.1
unfolding handle
handle-Balanced s (DeriveCommand.batch b) =
    if_elim {A = Stage × List Send} (λ r. Balanced r.1) (is_empty b.events) (s, [])
      (process_batch s b) (λ e. (refl, refl)) (λ e. process_batch_counts s b)
handle-Balanced s (DeriveCommand.tick now) = process_tick_counts s now
handle-Balanced s DeriveCommand.shutdown = (refl, refl)

-- Over any commands, the hints and the signals that the updates report add up to the hints sent to
-- the hints stage and to the signals sent to storage.
pub run-Balanced : (s : Stage) (cs : List DeriveCommand) → Balanced (run s cs).1
unfolding run
run-Balanced s [] = (refl, refl)
run-Balanced s (c ∷ cs) =
    let ((s', sends), go) = handle s c in
    let (last, rest) = run s' cs in
    if_elim {A = Stage × List Send} (λ r. Balanced r.1) go (last, sends ++ rest) (s', sends)
      (λ e. Balanced-append sends rest (handle-Balanced s c) (run-Balanced s' cs))
      (λ e. handle-Balanced s c)
