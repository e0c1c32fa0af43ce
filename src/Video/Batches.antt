-- ===== src/Video/Batches.antt =====
-- One pass of the pipeline over its frames, batch by batch: `main` of src/examples/video_pipeline_sim.cpp.
use gpu_vmm.Prelude.{
  ℕ, zero, suc, ◌+◌, ◌-◌, ◌≤◌, ◌<◌, ◌≡◌, refl, sym, ◌∙◌, ap, true, false, Option, none, some, List,
  [], ◌∷◌, ◌++◌, map, if◌then◌else◌, ltb, ltb→lt, lt→ltb, le→ltb, arith, Bool-cases, inl, inr,
}
use gpu_vmm.Common.Words.{u32_mod, u32_add}

-- What the pass does with frame `i`: `prefetch_to_gpu`, or decoding, conversion, filter and touch.
pub data Event : Type 0 where
  prefetch process : ℕ → Event

-- `i`, `i + 1` and so on.
unfoldable pub frames_from : ℕ → ℕ → List ℕ
frames_from i zero = []
frames_from i (suc count) = i ∷ frames_from (i + 1) count

-- The frames from `batch_start` to `std::min(batch_start + config.batch_size, config.num_frames)`.
unfoldable pub batch_frames : ℕ → ℕ → ℕ → List ℕ
unfolding frames_from
batch_frames num_frames batch_size batch_start =
    let batch_end = u32_add batch_start batch_size in
    frames_from batch_start
      ((if ltb num_frames batch_end then num_frames else batch_end) - batch_start)

-- The loop over the batches, on fuel; with none left it gives `none`.
unfoldable pub batch_loop : ℕ → ℕ → ℕ → ℕ → Option (List Event)
unfolding batch_frames
batch_loop num_frames batch_size zero batch_start = none
batch_loop num_frames batch_size (suc fuel) batch_start =
    let rest = batch_loop num_frames batch_size fuel (u32_add batch_start batch_size) in
    let frames = batch_frames num_frames batch_size batch_start in
    if ltb batch_start num_frames
    then elim rest [
      | none ↦ none
      | some events ↦ some (map prefetch frames ++ (map process frames ++ events))
    ]
    else some []

pub processed : List Event → List ℕ
processed [] = []
processed (prefetch i ∷ events) = processed events
processed (process i ∷ events) = i ∷ processed events

-- The frames are prefetched in their order from `next` on, and each before it is processed.
abbrev pub Prepared : ℕ → List Event → Type 0
Prepared next [] = Unit {0}
Prepared next (prefetch i ∷ events) = (i ≡ next) × Prepared (next + 1) events
Prepared next (process i ∷ events) = (i < next) × Prepared next events

frames_from_split : (i a b : ℕ) → frames_from i (a + b) ≡ frames_from i a ++ frames_from (i + a) b
unfolding frames_from
frames_from_split i zero b =
    let e : 0 + b ≡ b = omega arith in let z : i + 0 ≡ i = omega arith in rw (e, z) refl
frames_from_split i (suc a) b =
    let e : suc a + b ≡ suc (a + b) = omega arith in
    let z : i + suc a ≡ i + 1 + a = omega arith in
    rw (e, z) (ap (λ l. i ∷ l) (frames_from_split (i + 1) a b))

processed-prefetch :
    (frames : List ℕ) (events : List Event)
    → processed (map prefetch frames ++ events) ≡ processed events
unfolding processed
processed-prefetch [] events = refl
processed-prefetch (i ∷ frames) events = processed-prefetch frames events

processed-process :
    (frames : List ℕ) (events : List Event)
    → processed (map process frames ++ events) ≡ frames ++ processed events
unfolding processed
processed-process [] events = refl
processed-process (i ∷ frames) events = ap (λ l. i ∷ l) (processed-process frames events)

Prepared-prefetch :
    (i count : ℕ) (events : List Event)
    → Prepared (i + count) events
    → Prepared i (map prefetch (frames_from i count) ++ events)
unfolding frames_from
Prepared-prefetch i zero events h = let e : i + 0 ≡ i = omega arith in rw e at h
Prepared-prefetch i (suc count) events h =
    let e : i + suc count ≡ i + 1 + count = omega arith in
    (refl, Prepared-prefetch (i + 1) count events (rw e at h))

Prepared-process :
    (next i count : ℕ) (events : List Event)
    → i + count ≤ next
    → Prepared next events
    → Prepared next (map process (frames_from i count) ++ events)
unfolding frames_from
Prepared-process next i zero events h rest = rest
Prepared-process next i (suc count) events h rest =
    (omega arith, Prepared-process next (i + 1) count events (omega arith) rest)

module _ (num_frames batch_size : ℕ) (some_frames : 1 ≤ batch_size)
    (in_32 : num_frames + batch_size < u32_mod) where
  -- Where the frames end, or the batches have come to.
  reached : ℕ → ℕ
  reached batch_start = if ltb num_frames batch_start then num_frames else batch_start

  -- No frame is left.
  past_frames :
      (fuel batch_start : ℕ)
      → num_frames ≤ batch_start
      → (events : List Event) × (batch_loop num_frames batch_size (suc fuel) batch_start
          ≡ some events)
        × (processed events ≡ frames_from batch_start (num_frames - batch_start))
        × Prepared (reached batch_start) events
  unfolding batch_loop processed frames_from
  past_frames fuel s h =
      let past : ltb s num_frames ≡ false = le→ltb s num_frames h in
      let none_left : num_frames - s ≡ 0 = omega arith in ([], rw past refl, rw none_left refl, tt)

  left_over :
      (s count : ℕ)
      → reached (s + batch_size) ≡ s + count
      → frames_from (s + batch_size) (num_frames - (s + batch_size))
        ≡ frames_from (s + count) (num_frames - (s + count))
  unfolding reached frames_from
  left_over s count ends = elim (Bool-cases (ltb num_frames (s + batch_size))) [
    | inl last ↦
        let a : num_frames - (s + batch_size) ≡ 0 = ground arith in
        let b : num_frames - (s + count) ≡ 0 = ground arith in rw (a, b) refl
    | inr more ↦ let e : s + batch_size ≡ s + count = ground arith in rw e refl
  ]

  batch_frames_lem :
      (s count : ℕ)
      → s < num_frames
      → reached (s + batch_size) ≡ s + count
      → batch_frames num_frames batch_size s ≡ frames_from s count
  unfolding batch_frames reached
  batch_frames_lem s count inside ends =
      let next : u32_add s batch_size ≡ s + batch_size = omega arith in
      let size : s + count - s ≡ count = omega arith in rw next (rw ends (rw size refl))

  reached-after :
      (s : ℕ) → s < num_frames → reached (s + batch_size) ≡ s + (reached (s + batch_size) - s)
  unfolding reached
  reached-after s inside = ground arith

  reached-zero : reached 0 ≡ 0
  unfolding reached
  reached-zero = ground arith

  -- One batch of `count` frames, and the events after it.
  batch :
      (fuel s count : ℕ) (events : List Event)
      → s < num_frames
      → reached (s + batch_size) ≡ s + count
      → batch_loop num_frames batch_size fuel (s + batch_size) ≡ some events
      → processed events ≡ frames_from (s + batch_size) (num_frames - (s + batch_size))
      → Prepared (reached (s + batch_size)) events
      → (all : List Event) × (batch_loop num_frames batch_size (suc fuel) s ≡ some all)
        × (processed all ≡ frames_from s (num_frames - s))
        × Prepared (reached s) all
  unfolding batch_loop reached
  batch fuel s count events inside ends made in_order prepared =
      let below : ltb s num_frames ≡ true = lt→ltb s num_frames inside in
      let next : u32_add s batch_size ≡ s + batch_size = omega arith in
      let frames = frames_from s count in
      let here : reached s ≡ s = ground arith in
      let whole : count + (num_frames - (s + count)) ≡ num_frames - s = ground arith in
      let later = left_over s count ends in
      let all = map prefetch frames ++ (map process frames ++ events) in
      (
        all,
        rw (below, next, made, batch_frames_lem s count inside ends) refl,
        processed-prefetch frames (map process frames ++ events)
            ∙ processed-process frames events
            ∙ ap (λ l. frames ++ l) (in_order ∙ later)
            ∙ sym (frames_from_split s count (num_frames - (s + count)))
            ∙ ap (frames_from s) whole,
        rw here (
            Prepared-prefetch s count (map process frames ++ events)
              (Prepared-process (s + count) s count events (omega arith) (rw ends at prepared))),
      )

  batch_loop_lem :
      (fuel batch_start : ℕ)
      → batch_start < num_frames + batch_size
      → num_frames ≤ batch_start + fuel
      → (events : List Event) × (batch_loop num_frames batch_size (suc fuel) batch_start
          ≡ some events)
        × (processed events ≡ frames_from batch_start (num_frames - batch_start))
        × Prepared (reached batch_start) events
  batch_loop_lem zero s h enough = past_frames 0 s (omega arith)
  batch_loop_lem (suc fuel) s h enough = elim (Bool-cases (ltb s num_frames)) [
    | inr past ↦ past_frames (suc fuel) s (ground arith)
    | inl below ↦
        let inside = ltb→lt s num_frames below in
        let (events, made, in_order, prepared) =
          batch_loop_lem fuel (s + batch_size) (omega arith) (omega arith) in
        batch (suc fuel) s (reached (s + batch_size) - s) events inside (reached-after s inside)
          made in_order prepared
  ]

-- With batches of at least one frame, and a number of frames that leaves the counter of the batches in 32 bits, a
-- pass ends after at most one batch more than there are frames. It processes every frame once, from the first to the
-- last, each after it was prefetched.
pub batch_loop-frames :
    (num_frames batch_size : ℕ)
    → 1 ≤ batch_size
    → num_frames + batch_size < u32_mod
    → (events : List Event) × (batch_loop num_frames batch_size (suc num_frames) 0 ≡ some events)
      × (processed events ≡ frames_from 0 num_frames)
      × Prepared 0 events
batch_loop-frames num_frames batch_size some_frames in_32 =
    let (events, made, in_order, prepared) =
      batch_loop_lem num_frames batch_size some_frames in_32 num_frames 0 (omega arith)
        (omega arith) in
    let all : num_frames - 0 ≡ num_frames = omega arith in
    (
      events,
      made,
      in_order ∙ ap (frames_from 0) all,
      rw (reached-zero num_frames batch_size some_frames in_32) at prepared,
    )

-- With batches of no frames a pass over at least one frame does not end: no fuel is enough.
pub batch_loop_endless :
    (num_frames fuel : ℕ) → 1 ≤ num_frames → batch_loop num_frames 0 fuel 0 ≡ none
unfolding batch_loop
batch_loop_endless num_frames zero h = refl
batch_loop_endless num_frames (suc fuel) h =
    let below : ltb 0 num_frames ≡ true = lt→ltb 0 num_frames (omega arith) in
    rw (below, batch_loop_endless num_frames fuel h) refl
