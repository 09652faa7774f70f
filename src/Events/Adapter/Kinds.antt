-- ===== src/Events/Adapter/Kinds.antt =====
-- What the event adapter promises of its output.
use kronical.Prelude.{
  ℕ, ◌+◌, ◌≡◌, refl, Bool, true, false, not, ◌&&◌, Option, none, some, List, [], ◌∷◌, ◌++◌, arith,
  All, All-append, All-imp, ◌==◌,
}
use kronical.Prelude.Loops.{emit_each, emit_each-append}
use kronical.Prelude.Text.{str_eq}
use kronical.Events.{WindowFocusInfo, RawEvent, event_id, timestamp}
use kronical.Events.Adapter.{EventAdapter, same_app, adapt_focus, adapt_event, adapt_batch}
use kronical.Events.DeriveSignal.Boundaries.{is_boundary}
use kronical.Events.Model.{SignalKind, HintKind, EventKind, EventEnvelope}
use kronical.Time.{DateTime}

-- The output does not depend on how the raw events are cut into batches.
pub adapt_batch-append :
    (a : EventAdapter) (xs ys : List RawEvent)
    → adapt_batch a (xs ++ ys) ≡ (
      (adapt_batch (adapt_batch a xs).0 ys).0,
      (adapt_batch a xs).1 ++ (adapt_batch (adapt_batch a xs).0 ys).1,
    )
unfolding adapt_batch
adapt_batch-append a xs ys = emit_each-append adapt_event a xs ys

-- The focus moved to another process or another window.
abbrev pub is_switch : Option WindowFocusInfo → WindowFocusInfo → Bool
is_switch none current = true
is_switch (some last) current = not (same_app last current && last.window_id == current.window_id)

-- The same window, under another title.
abbrev pub is_retitle : Option WindowFocusInfo → WindowFocusInfo → Bool
is_retitle none current = false
is_retitle (some last) current =
    (same_app last current && last.window_id == current.window_id)
    && not (str_eq last.window_title current.window_title)

abbrev pub count_if : Bool → ℕ → ℕ
count_if true n = n + 1
count_if false n = n

-- The switches and the new titles in a list of raw events, each focus against the one before it.
abbrev pub switches : Option WindowFocusInfo → List RawEvent → ℕ
switches last [] = 0
switches last (RawEvent.window_focus_change _ _ f ∷ raw) =
    count_if (is_switch last f) (switches (some f) raw)
switches last (_ ∷ raw) = switches last raw

abbrev pub retitles : Option WindowFocusInfo → List RawEvent → ℕ
retitles last [] = 0
retitles last (RawEvent.window_focus_change _ _ f ∷ raw) =
    count_if (is_retitle last f) (retitles (some f) raw)
retitles last (_ ∷ raw) = retitles last raw

abbrev pub is_focus_hint : EventKind → Bool
is_focus_hint (EventKind.hint HintKind.focus_changed) = true
is_focus_hint _ = false

abbrev pub is_title_hint : EventKind → Bool
is_title_hint (EventKind.hint HintKind.title_changed) = true
is_title_hint _ = false

abbrev pub is_change_signal : EventKind → Bool
is_change_signal (EventKind.signal SignalKind.app_changed) = true
is_change_signal (EventKind.signal SignalKind.window_changed) = true
is_change_signal _ = false

-- How many envelopes have a kind.
abbrev pub kinds : (EventKind → Bool) → List EventEnvelope → ℕ
kinds p [] = 0
kinds p (e ∷ es) = count_if (p e.kind) (kinds p es)

kinds-append :
    (p : EventKind → Bool) (xs ys : List EventEnvelope)
    → kinds p (xs ++ ys) ≡ kinds p xs + kinds p ys
kinds-append p [] ys = omega arith
kinds-append p (e ∷ xs) ys = ground (arith, kinds-append p xs ys)

adapt_focus-kinds :
    (last : Option WindowFocusInfo) (id : ℕ) (now : DateTime) (f : WindowFocusInfo)
    → (kinds is_focus_hint (adapt_focus last id now f) ≡ count_if (is_switch last f) 0)
      × (kinds is_change_signal (adapt_focus last id now f) ≡ count_if (is_switch last f) 0)
      × (kinds is_title_hint (adapt_focus last id now f) ≡ count_if (is_retitle last f) 0)
unfolding adapt_focus
adapt_focus-kinds last id now f = ground arith

-- Over a batch there is one `FocusChanged` hint and one `AppChanged` or `WindowChanged` signal for
-- each switch of the process or the window, and one `TitleChanged` hint for each new title in the
-- same window: a focus that is only reported again emits nothing.
pub adapt_batch-kinds :
    (a : EventAdapter) (raw : List RawEvent)
    → (kinds is_focus_hint (adapt_batch a raw).1 ≡ switches a.last_focus raw)
      × (kinds is_change_signal (adapt_batch a raw).1 ≡ switches a.last_focus raw)
      × (kinds is_title_hint (adapt_batch a raw).1 ≡ retitles a.last_focus raw)
unfolding adapt_batch adapt_event emit_each
adapt_batch-kinds a [] = (refl, refl, refl)
adapt_batch-kinds a (RawEvent.keyboard_input now id k ∷ raw) = adapt_batch-kinds a raw
adapt_batch-kinds a (RawEvent.mouse_input now id m ∷ raw) = adapt_batch-kinds a raw
adapt_batch-kinds a (RawEvent.window_focus_change now id f ∷ raw) =
    let next : EventAdapter = record { last_focus = some f } in
    let rest = (adapt_batch next raw).1 in
    let out = adapt_focus a.last_focus id now f in
    ground (
      arith,
      kinds-append is_focus_hint out rest,
      kinds-append is_change_signal out rest,
      kinds-append is_title_hint out rest,
      adapt_focus-kinds a.last_focus id now f,
      adapt_batch-kinds next raw,
    )

-- An envelope that stands for the raw event itself.
pub record IsPlain (raw : RawEvent) (e : EventEnvelope) : Type 0 where
  pub same_id : e.id ≡ event_id raw
  pub same_time : e.timestamp ≡ timestamp raw
  pub no_boundary : is_boundary e.kind ≡ false
  pub underived : e.derived ≡ false

-- Every envelope of a raw event carries its id and its time, is not derived, and is no boundary of
-- the lock.
pub adapt_event-IsPlain :
    (a : EventAdapter) (raw : RawEvent) → All (IsPlain raw) (adapt_event a raw).1
unfolding adapt_event
adapt_event-IsPlain a raw = ground arith

pub adapt_batch-boundary :
    (a : EventAdapter) (raw : List RawEvent)
    → All (λ e. is_boundary e.kind ≡ false) (adapt_batch a raw).1
unfolding adapt_batch emit_each
adapt_batch-boundary a [] = tt
adapt_batch-boundary a (e ∷ raw) =
    All-append _ (adapt_event a e).1 (adapt_batch (adapt_event a e).0 raw).1
      (All-imp (IsPlain e) _ (λ x h. h.no_boundary) (adapt_event a e).1 (adapt_event-IsPlain a e))
      (adapt_batch-boundary (adapt_event a e).0 raw)
