-- ===== src/Playout/Release.antt =====
-- The buffer shows the frames in order, each at its time.
use agora_link.Prelude.{
  ℕ, ◌≤◌, ◌<◌, ◌≡◌, refl, ap, List, [], ◌∷◌, ◌++◌, All, leb, ltb, leb_false→lt, if_cases, Option,
  none, some, Result, ok, ok-injective, arith,
}
use mathlib.Core.Path.{subst}
use agora_link.Reassembly.{EncodedFrame}
use agora_link.Playout.{
  PlayoutBuffer, PlayoutStats, BufferedFrame, PlayoutError, new_buffer, not_before,
  target_playout_at, push_frame, push_loop, push_frames, count_release, pop_loop, popped,
  bare_frames, pop_due, clear_for_discontinuity,
}

-- The times rise along the queue, from `low` on, and end by `last`.
abbrev Rises : ℕ → List BufferedFrame → ℕ → Type 0
Rises low [] last = low ≤ last
Rises low (f ∷ frames) last = (low ≤ f.target_playout_at) × Rises f.target_playout_at frames last

-- Without a last time the queue is empty.
abbrev OrderedBy : List BufferedFrame → Option ℕ → Type 0
OrderedBy frames none = frames ≡ []
OrderedBy frames (some last) = Rises 0 frames last

abbrev IsOrdered : PlayoutBuffer → Type 0
IsOrdered b = OrderedBy b.frames b.last_target_at

appended-Rises :
    (low : ℕ) (frames : List BufferedFrame) (last : ℕ) (f : BufferedFrame)
    → last ≤ f.target_playout_at
    → Rises low frames last
    → Rises low (frames ++ f ∷ []) f.target_playout_at
appended-Rises low [] last f le h = (omega arith, omega arith)
appended-Rises low (g ∷ frames) last f le h =
    (h.0, appended-Rises g.target_playout_at frames last f le h.1)

lower-Rises :
    (low low' : ℕ) (frames : List BufferedFrame) (last : ℕ)
    → low' ≤ low
    → Rises low frames last
    → Rises low' frames last
lower-Rises low low' [] last le h = omega arith
lower-Rises low low' (f ∷ frames) last le h = (omega (arith, h.0), h.1)

appended-OrderedBy :
    (frames : List BufferedFrame) (last : Option ℕ) (at : ℕ) (f : BufferedFrame)
    → f.target_playout_at ≡ not_before last at
    → OrderedBy frames last
    → Rises 0 (frames ++ f ∷ []) f.target_playout_at
appended-OrderedBy frames none at f e h = rw (h) (omega arith, omega arith)
appended-OrderedBy frames (some last) at f e h = appended-Rises 0 frames last f (omega (arith, e)) h

push_frame-IsOrdered :
    (b : PlayoutBuffer) (frame : EncodedFrame) (completed_at : ℕ)
    → IsOrdered b
    → IsOrdered (push_frame b frame completed_at)
unfolding target_playout_at
push_frame-IsOrdered b frame completed_at h =
    let target : ℕ = target_playout_at b frame.timestamp_ms completed_at in
    appended-OrderedBy b.frames b.last_target_at _
      (record { frame = frame; completed_at = completed_at; target_playout_at = target }) refl h

push_loop-IsOrdered :
    (b : PlayoutBuffer) (frames : List EncodedFrame) (completed_at : ℕ)
    → IsOrdered b
    → IsOrdered (push_loop b frames completed_at)
push_loop-IsOrdered b [] completed_at h = h
push_loop-IsOrdered b (frame ∷ frames) completed_at h =
    push_loop-IsOrdered (push_frame b frame completed_at) frames completed_at
      (push_frame-IsOrdered b frame completed_at h)

-- What a release keeps is the rest of the queue.
kept-Rises :
    (low : ℕ) (frames : List BufferedFrame) (t : PlayoutStats) (now last : ℕ)
    → Rises low frames last
    → Rises 0 (pop_loop frames t now).1 last
kept-Rises low [] t now last h = omega arith
kept-Rises low (f ∷ frames) t now last h =
    if_cases (λ (r : List BufferedFrame × List BufferedFrame × PlayoutStats). Rises 0 r.1 last)
      (leb f.target_playout_at now) _ _
      (λ _. kept-Rises f.target_playout_at frames (count_release t f now) now last h.1)
      (λ _. (omega arith, h.1))

kept-OrderedBy :
    (frames : List BufferedFrame) (t : PlayoutStats) (now : ℕ) (last : Option ℕ)
    → OrderedBy frames last
    → OrderedBy (pop_loop frames t now).1 last
kept-OrderedBy frames t now none h = rw (h) refl
kept-OrderedBy frames t now (some last) h = kept-Rises 0 frames t now last h

-- What is in the queue behind a frame that is not due is not due.
later-All :
    (low : ℕ) (frames : List BufferedFrame) (last now : ℕ)
    → now < low
    → Rises low frames last
    → All (λ f. now < f.target_playout_at) frames
later-All low [] last now lt h = tt
later-All low (f ∷ frames) last now lt h =
    (omega (arith, h.0), later-All f.target_playout_at frames last now (omega (arith, h.0)) h.1)

-- The split of a queue into what is due and what is not.
abbrev pub IsSplit : List BufferedFrame → ℕ → List BufferedFrame → List BufferedFrame → Type 0
IsSplit frames now due waiting =
    (due ++ waiting ≡ frames)
    × All (λ f. f.target_playout_at ≤ now) due
    × All (λ f. now < f.target_playout_at) waiting

abbrev Splits :
    List BufferedFrame → ℕ → List BufferedFrame × List BufferedFrame × PlayoutStats → Type 0
Splits frames now r = IsSplit frames now r.0 r.1

pop_loop-IsSplit :
    (low : ℕ) (frames : List BufferedFrame) (t : PlayoutStats) (now last : ℕ)
    → Rises low frames last
    → Splits frames now (pop_loop frames t now)
pop_loop-IsSplit low [] t now last h = (refl, tt, tt)
pop_loop-IsSplit low (f ∷ frames) t now last h =
    let (same, due, waiting) =
      pop_loop-IsSplit f.target_playout_at frames (count_release t f now) now last h.1 in
    if_cases (Splits (f ∷ frames) now) (leb f.target_playout_at now) _ _
      (λ e. (ap (λ xs. f ∷ xs) same, (ground (arith, e), due), waiting))
      (λ e.
        let later : now < f.target_playout_at = leb_false→lt f.target_playout_at now e in
        (refl, tt, (later, later-All f.target_playout_at frames last now later h.1)))

popped-IsSplit :
    (frames : List BufferedFrame) (t : PlayoutStats) (now : ℕ) (last : Option ℕ)
    → OrderedBy frames last
    → Splits frames now (pop_loop frames t now)
popped-IsSplit frames t now none h = rw (h) (refl, tt, tt)
popped-IsSplit frames t now (some last) h = pop_loop-IsSplit 0 frames t now last h

pub data Operation : Type 0 where
  pushes : List EncodedFrame → ℕ → Operation
  pops : ℕ → Operation
  clears : Operation

abbrev operate : PlayoutBuffer → Operation → PlayoutBuffer
operate b (pushes frames completed_at) = push_frames b frames completed_at
operate b (pops now) = (pop_due b now).0
operate b clears = clear_for_discontinuity b

abbrev pub operate_all : PlayoutBuffer → List Operation → PlayoutBuffer
operate_all b [] = b
operate_all b (o ∷ operations) = operate_all (operate b o) operations

operate-IsOrdered : (b : PlayoutBuffer) (o : Operation) → IsOrdered b → IsOrdered (operate b o)
unfolding push_frames pop_due clear_for_discontinuity
operate-IsOrdered b (pushes frames completed_at) h = push_loop-IsOrdered b frames completed_at h
operate-IsOrdered b (pops now) h = kept-OrderedBy b.frames b.stats now b.last_target_at h
operate-IsOrdered b clears h = refl

operate_all-IsOrdered :
    (b : PlayoutBuffer) (operations : List Operation)
    → IsOrdered b
    → IsOrdered (operate_all b operations)
operate_all-IsOrdered b [] h = h
operate_all-IsOrdered b (o ∷ operations) h =
    operate_all-IsOrdered (operate b o) operations (operate-IsOrdered b o h)

new_buffer-IsOrdered : (delay_ms : ℕ) (b : PlayoutBuffer) → new_buffer delay_ms ≡ ok b → IsOrdered b
unfolding new_buffer
new_buffer-IsOrdered delay_ms b e =
    if_cases (λ (r : Result PlayoutError PlayoutBuffer). r ≡ ok b → IsOrdered b) (ltb 500 delay_ms)
      _ _ (λ _ h. cc) (λ _ h. subst IsOrdered (ok-injective h) refl) e

-- After any operations on a new buffer, `pop_due` splits the queue: it returns the frames of the front
-- part, which are exactly those whose time has come, in the order in which they were pushed, and leaves
-- the other part in the buffer, every frame of which is for later.
pub pop_due-exact :
    (delay_ms : ℕ) (b : PlayoutBuffer) (operations : List Operation) (now : ℕ)
    → new_buffer delay_ms ≡ ok b
    → (due : List BufferedFrame) × ((pop_due (operate_all b operations) now).1 ≡ bare_frames due)
      × IsSplit
          (operate_all b operations).frames
          now
          due
          (pop_due (operate_all b operations) now).0.frames
unfolding pop_due
pop_due-exact delay_ms b operations now e =
    let c : PlayoutBuffer = operate_all b operations in
    (
      (popped c now).0,
      refl,
      popped-IsSplit c.frames c.stats now c.last_target_at
          (operate_all-IsOrdered b operations (new_buffer-IsOrdered delay_ms b e)),
    )
