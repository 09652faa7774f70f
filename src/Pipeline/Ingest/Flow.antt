-- ===== src/Pipeline/Ingest/Flow.antt =====
-- What the ingest stage passes on of what it receives.
use kronical.Prelude.{
  ℕ, ◌≡◌, refl, ap, sym, ◌∙◌, Bool, true, false, Option, none, some, List, [], ◌∷◌, ◌++◌, map,
  arith, is_empty, if◌then◌else◌, if_elim,
}
use kronical.Events.{RawEvent}
use kronical.Pipeline.{DeriveCommand, FlushReason}
use kronical.Pipeline.Ingest.{
  KronicalEvent, convert_kronid_to_raw, IdState, next_event_id, Ingest, Arrival, Turn, next_turn,
  queued, take_event, continued, batch_of, on_arrival, run_ingest,
}
use kronical.Time.{DateTime}
use mathlib.Core.Path.{subst}
use mathlib.Core.List.{append_assoc, append-nil}

-- A raw event without its time and its id.
abbrev pub content : RawEvent → RawEvent
content (RawEvent.keyboard_input _ _ k) = RawEvent.keyboard_input 0 0 k
content (RawEvent.mouse_input _ _ m) = RawEvent.mouse_input 0 0 m
content (RawEvent.window_focus_change _ _ f) = RawEvent.window_focus_change 0 0 f

-- The events in the batches among the commands.
abbrev pub batched : List DeriveCommand → List RawEvent
batched [] = []
batched (DeriveCommand.batch b ∷ cs) = b.events ++ batched cs
batched (_ ∷ cs) = batched cs

abbrev pub with_raw : Option RawEvent → List RawEvent → List RawEvent
with_raw none raws = raws
with_raw (some raw) raws = raw ∷ raws

-- What arrives before the stage ends.
abbrev pub arriving : List Arrival → List RawEvent
arriving [] = []
arriving (Arrival.received KronicalEvent.shutdown _ _ _ ∷ as') = []
arriving (Arrival.received e _ _ _ ∷ as') = with_raw (convert_kronid_to_raw e 0 0) (arriving as')
arriving (Arrival.disconnected ∷ as') = []
arriving (Arrival.ticker _ _ _ ∷ as') = arriving as'

-- What a run accounts for: each event is in a batch or still pending, once and in order.
abbrev pub Accounted : List RawEvent → Option (Ingest × List DeriveCommand) → Type 0
Accounted raws none = Unit
Accounted raws (some (last, sends)) = map content (batched sends) ++ map content last.pending ≡ raws

batched-append : (xs ys : List DeriveCommand) → batched (xs ++ ys) ≡ batched xs ++ batched ys
batched-append [] ys = refl
batched-append (DeriveCommand.batch b ∷ xs) ys =
    ap (λ l. b.events ++ l) (batched-append xs ys)
    ∙ sym (append_assoc b.events (batched xs) (batched ys))
batched-append (DeriveCommand.tick t ∷ xs) ys = batched-append xs ys
batched-append (DeriveCommand.shutdown ∷ xs) ys = batched-append xs ys

map-append : (xs ys : List RawEvent) → map content (xs ++ ys) ≡ map content xs ++ map content ys
map-append [] ys = refl
map-append (x ∷ xs) ys = ap (λ l. content x ∷ l) (map-append xs ys)

-- The arrivals that end the loop.
abbrev ends : Arrival → Bool
ends (Arrival.received KronicalEvent.shutdown _ _ _) = true
ends (Arrival.received _ _ _ _) = false
ends Arrival.disconnected = true
ends (Arrival.ticker _ _ _) = false

abbrev taken : Arrival → List RawEvent
taken a = arriving (a ∷ [])

-- A turn moves what was pending and what it took into its batches and what is pending then.
abbrev Moved : List RawEvent → Arrival → Option Turn → Type 0
Moved before a none = Unit
Moved before a (some ((s', sends), over)) =
    (map content (batched sends) ++ map content s'.pending
      ≡ map content before ++ map content (taken a))
    × (over ≡ ends a)

abbrev Joins : List RawEvent → List RawEvent → Ingest × List DeriveCommand → Type 0
Joins before raws (s', sends) =
    map content (batched sends) ++ map content s'.pending ≡ map content before ++ map content raws

queued-Joins :
    (s : Ingest) (ids : IdState) (instant : ℕ) (utc : DateTime) (raw : Option RawEvent)
    (raws : List RawEvent)
    → map content (with_raw raw []) ≡ map content raws
    → Joins s.pending raws (queued s ids instant utc raw).0
queued-Joins s ids instant utc none raws h =
    sym (ap (λ l. map content s.pending ++ l) (sym h) ∙ append-nil (map content s.pending))
queued-Joins s ids instant utc (some raw) raws h =
    map-append s.pending (raw ∷ []) ∙ ap (λ l. map content s.pending ++ l) h

queued-over :
    (s : Ingest) (ids : IdState) (instant : ℕ) (utc : DateTime) (raw : Option RawEvent)
    → (queued s ids instant utc raw).1 ≡ false
queued-over s ids instant utc none = refl
queued-over s ids instant utc (some raw) = refl

convert-content :
    (e : KronicalEvent) (now : DateTime) (id : ℕ)
    → map content (with_raw (convert_kronid_to_raw e now id) [])
      ≡ map content (with_raw (convert_kronid_to_raw e 0 0) [])
unfolding convert_kronid_to_raw
convert-content KronicalEvent.keyboard_input now id = refl
convert-content (KronicalEvent.mouse_input x y b c k) now id = refl
convert-content (KronicalEvent.mouse_wheel c x y t a r w) now id = refl
convert-content (KronicalEvent.window_focus_change f) now id = refl
convert-content KronicalEvent.shutdown now id = refl

abbrev Taken : Ingest → KronicalEvent → Option Turn → Type 0
Taken s e none = Unit
Taken s e (some (out, over)) =
    Joins s.pending (with_raw (convert_kronid_to_raw e 0 0) []) out × (over ≡ false)

take_event-Taken :
    (s : Ingest) (e : KronicalEvent) (utc : DateTime) (instant : ℕ)
    (r : Option (IdState × (DateTime × ℕ)))
    → Taken s e (take_event s e utc instant r)
take_event-Taken s e utc instant none = tt
take_event-Taken s e utc instant (some (ids, (now, id))) =
    let raw = convert_kronid_to_raw e now id in
    (
      queued-Joins s ids instant utc raw _ (convert-content e now id),
      queued-over s ids instant utc raw,
    )

taken_out :
    (s : Ingest) (e : KronicalEvent) (a : Arrival) (o : Option Turn)
    → ends a ≡ false
    → taken a ≡ with_raw (convert_kronid_to_raw e 0 0) []
    → Taken s e o
    → Moved s.pending a o
taken_out s e a none n t h = tt
taken_out s e a (some (out, over)) n t h =
    (h.0 ∙ ap (λ l. map content s.pending ++ map content l) (sym t), h.1 ∙ sym n)

taken-Moved :
    (s : Ingest) (e : KronicalEvent) (rs : List DateTime) (utc : DateTime) (instant : ℕ)
    → ends (Arrival.received e rs utc instant) ≡ false
    → taken (Arrival.received e rs utc instant) ≡ with_raw (convert_kronid_to_raw e 0 0) []
    → Moved s.pending
        (Arrival.received e rs utc instant)
        (take_event s e utc instant (next_event_id s.ids rs))
taken-Moved s e rs utc instant n t =
    taken_out s e (Arrival.received e rs utc instant) _ n t
      (take_event-Taken s e utc instant (next_event_id s.ids rs))

flushed :
    (p : List RawEvent)
    → batched (
        (if is_empty p then [] else batch_of p FlushReason.shutdown ∷ [])
        ++ (DeriveCommand.shutdown ∷ []))
      ≡ p
flushed [] = refl
flushed (r ∷ p) = append-nil (r ∷ p)

on_arrival-Moved : (s : Ingest) (a : Arrival) → Moved s.pending a (on_arrival s a)
unfolding on_arrival
on_arrival-Moved s (Arrival.received KronicalEvent.shutdown rs utc instant) =
    (ap (λ l. map content l ++ []) (flushed s.pending), refl)
on_arrival-Moved s (Arrival.received KronicalEvent.keyboard_input rs utc instant) =
    taken-Moved s KronicalEvent.keyboard_input rs utc instant refl refl
on_arrival-Moved s (Arrival.received (KronicalEvent.mouse_input x y b c k) rs utc instant) =
    taken-Moved s (KronicalEvent.mouse_input x y b c k) rs utc instant refl refl
on_arrival-Moved s (Arrival.received (KronicalEvent.mouse_wheel c x y t a r w) rs utc instant) =
    taken-Moved s (KronicalEvent.mouse_wheel c x y t a r w) rs utc instant refl refl
on_arrival-Moved s (Arrival.received (KronicalEvent.window_focus_change f) rs utc instant) =
    taken-Moved s (KronicalEvent.window_focus_change f) rs utc instant refl refl
on_arrival-Moved s Arrival.disconnected = (sym (append-nil (map content s.pending)), refl)
on_arrival-Moved s (Arrival.ticker utc before after) =
    ground (arith, append-nil s.pending, append-nil (map content s.pending))

arriving-cons :
    (a : Arrival) (as' : List Arrival)
    → (ends a ≡ true → arriving (a ∷ as') ≡ taken a)
      × (ends a ≡ false → arriving (a ∷ as') ≡ taken a ++ arriving as')
arriving-cons a as' = ground arith

then_rest :
    (s s' : Ingest) (sends : List DeriveCommand) (now later : List RawEvent)
    (r : Option (Ingest × List DeriveCommand))
    → Joins s.pending now (s', sends)
    → Accounted (map content s'.pending ++ map content later) r
    → Accounted (map content s.pending ++ map content (now ++ later)) (continued r sends)
then_rest s s' sends now later none h k = tt
then_rest s s' sends now later (some (last, rest)) h k =
    let split =
      ap (map content) (batched-append sends rest) ∙ map-append (batched sends) (batched rest) in
    let left : map content (batched (sends ++ rest)) ++ map content last.pending
        ≡ map content (batched sends) ++ (map content s'.pending ++ map content later) =
      rw split (
        rw
          (append_assoc (map content (batched sends)) (map content (batched rest))
            (map content last.pending))
          (rw k refl)) in
    left
    ∙ (sym (append_assoc (map content (batched sends)) (map content s'.pending) (map content later))
        ∙ (ap (λ l. l ++ map content later) h
            ∙ (append_assoc (map content s.pending) (map content now) (map content later)
                ∙ ap (λ l. map content s.pending ++ l) (sym (map-append now later)))))

next_turn-Accounted :
    (s : Ingest) (a : Arrival) (as' : List Arrival)
    → (go : Ingest → Option (Ingest × List DeriveCommand))
    → ((s' : Ingest) → Accounted (map content s'.pending ++ map content (arriving as')) (go s'))
    → (o : Option Turn) → Moved s.pending a o
    → Accounted (map content s.pending ++ map content (arriving (a ∷ as'))) (next_turn go o)
next_turn-Accounted s a as' go h none m = tt
next_turn-Accounted s a as' go h (some ((s', sends), over)) m =
    let cut = arriving-cons a as' in
    if_elim {A = Option (Ingest × List DeriveCommand)}
      (Accounted (map content s.pending ++ map content (arriving (a ∷ as')))) over
      (some (s', sends)) (continued (go s') sends)
      (λ stop.
        m.0 ∙ ap (λ l. map content s.pending ++ map content l) (sym (cut.0 (sym m.1 ∙ stop))))
      (λ on.
        subst (λ l. Accounted (map content s.pending ++ map content l) (continued (go s') sends))
          (sym (cut.1 (sym m.1 ∙ on)))
          (then_rest s s' sends (taken a) (arriving as') (go s') m.0 (h s')))

-- Over a run in which no wait for the clock goes on, the events of the batches and then those that
-- are still pending are just what was pending and what arrived before the stage ended: each once,
-- in order, with the data that its conversion gives it.
pub run_ingest-Accounted :
    (s : Ingest) (arrivals : List Arrival)
    → Accounted (map content s.pending ++ map content (arriving arrivals)) (run_ingest s arrivals)
unfolding run_ingest
run_ingest-Accounted s [] = sym (append-nil (map content s.pending))
run_ingest-Accounted s (a ∷ as') =
    next_turn-Accounted s a as' (λ s'. run_ingest s' as') (λ s'. run_ingest-Accounted s' as')
      (on_arrival s a) (on_arrival-Moved s a)
