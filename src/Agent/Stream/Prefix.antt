-- ===== src/Agent/Stream/Prefix.antt =====
-- What reaches the sink.
use ops_terminator.Base.{
  ℕ, zero, suc, ◌+◌, ◌-◌, ◌≤◌, ◌<◌, true, false, List, [], ◌∷◌, ◌++◌, append_assoc, append-nil, inl,
  inr, ◌≡◌, ◌≢◌, ◌⊎◌, refl, sym, ap, ◌∙◌, arith, subst, ◌==◌, text_eq, nat_eq, ==_iff, ==-refl,
  text_beq, Bool-cases, leb, if◌then◌else◌,
}
use ops_terminator.Base.Text.{Text, length, take, length-append}
use ops_terminator.Agent.Stream.{
  StreamState, state_of, set_state, truncation_notice, stream_chunk, bounded_sink,
}

-- The pieces of a list of chunks in one.
abbrev joined : List Text → Text
joined [] = []
joined (t ∷ ts) = t ++ joined ts

-- What calls of the bounded sink pass on for a kind, in one text.
unfoldable pub passed : ℕ → Text → List (Text × Text) → List (Text × StreamState) → Text
passed limit kind [] states = []
passed limit kind ((k, chunk) ∷ calls) states =
    let (states', out) = bounded_sink limit k chunk states in
    let rest = passed limit kind calls states' in if k == kind then joined out ++ rest else rest

-- What the calls were given for a kind.
unfoldable pub given : Text → List (Text × Text) → Text
given kind [] = []
given kind ((k, chunk) ∷ calls) =
    let rest = given kind calls in if k == kind then chunk ++ rest else rest

abbrev pub IsNotice : ℕ → Text → Text → Type 0
IsNotice limit kind note =
    (note ≡ truncation_notice kind limit) ⊎ (note ≡ b'\n' ∷ truncation_notice kind limit)

-- The whole text if it fits behind what was used, and otherwise its beginning up to the limit and a
-- notice.
abbrev pub IsBounded : ℕ → Text → ℕ → Text → Text → Type 0
IsBounded limit kind used total out =
    ((used + length total ≤ limit) × (out ≡ total))
    ⊎ ((limit < used + length total)
        × ((note : Text) × IsNotice limit kind note × (out ≡ take (limit - used) total ++ note)))

abbrev IsDelivered : ℕ → Text → StreamState → Text → Text → Type 0
IsDelivered limit kind s total out =
    ((s.truncated ≡ true) × (out ≡ []))
    ⊎ ((s.truncated ≡ false) × IsBounded limit kind s.used total out)

take-append-le : (n : ℕ) (s t : Text) → n ≤ length s → take n (s ++ t) ≡ take n s
take-append-le zero s t h = refl
take-append-le (suc n) [] t h = absurd (omega arith)
take-append-le (suc n) (c ∷ s) t h = ap (◌∷◌ c) (take-append-le n s t (omega arith))

take-append-ge : (n : ℕ) (s t : Text) → length s ≤ n → take n (s ++ t) ≡ s ++ take (n - length s) t
take-append-ge n [] t h = ap (λ (m : ℕ). take m t) (omega arith)
take-append-ge zero (c ∷ s) t h = absurd (omega arith)
take-append-ge (suc n) (c ∷ s) t h =
    ap (◌∷◌ c) (take-append-ge n s t (omega arith) ∙ ap (λ (m : ℕ). s ++ take m t) (omega arith))

stopped-nil :
    (limit : ℕ) (kind : Text) (s : StreamState) (total out : Text)
    → IsDelivered limit kind s total out
    → s.truncated ≡ true
    → out ≡ []
stopped-nil limit kind s total out (inl (t, e)) h = e
stopped-nil limit kind s total out (inr (f, b)) h = cc

IsBounded-of_open :
    (limit : ℕ) (kind : Text) (s : StreamState) (total out : Text)
    → IsDelivered limit kind s total out
    → s.truncated ≡ false
    → IsBounded limit kind s.used total out
IsBounded-of_open limit kind s total out (inl (t, e)) h = cc
IsBounded-of_open limit kind s total out (inr (f, b)) h = b

length-pos : (s : Text) → s ≢ [] → 0 < length s
length-pos [] h = absurd (h refl)
length-pos (_ ∷ s) h = omega arith

IsBounded-chunk :
    (limit : ℕ) (kind : Text) (used : ℕ) (chunk total out : Text)
    → used + length chunk ≤ limit
    → IsBounded limit kind (used + length chunk) total out
    → IsBounded limit kind used (chunk ++ total) (chunk ++ out)
IsBounded-chunk limit kind used chunk total out h (inl (fits, e)) =
    inl (omega (arith, length-append chunk total), ap (λ x. chunk ++ x) e)
IsBounded-chunk limit kind used chunk total out h (inr (over, (note, n, e))) = inr (
  omega (arith, length-append chunk total),
  (
    note,
    n,
    ap (λ x. chunk ++ x) e
        ∙ (sym (append_assoc chunk _ note)
            ∙ ap (λ x. x ++ note)
                (ap (λ (m : ℕ). chunk ++ take m total) (omega arith)
                  ∙ sym (take-append-ge (limit - used) chunk total (omega arith)))),
  ),
)

stream_chunk-used :
    (limit : ℕ) (kind chunk : Text) (s : StreamState)
    → s.used ≤ limit
    → (stream_chunk limit kind chunk s).0.used ≤ limit
unfolding stream_chunk
stream_chunk-used limit kind chunk s h = ground arith

-- A chunk on a state that was not cut.
open_chunk-IsBounded :
    (limit : ℕ) (kind chunk : Text) (s : StreamState) (total out : Text)
    → chunk ≢ []
    → s.used ≤ limit
    → s.truncated ≡ false
    → IsDelivered limit kind (stream_chunk limit kind chunk s).0 total out
    → IsBounded limit kind s.used
        (chunk ++ total)
        (joined (stream_chunk limit kind chunk s).1 ++ out)
unfolding stream_chunk
open_chunk-IsBounded limit kind chunk s total out n h f d =
    elim (Bool-cases (limit - s.used == 0)) [
      | inl full ↦
          let nothing = stopped-nil limit kind _ total out (rw (f, full) at d) refl in
          let some_length = length-pos chunk n in
          let zero_left : limit - s.used ≡ 0 = ground arith in
          rw (f, full)
            (inr (
              omega (arith, length-append chunk total),
              (truncation_notice kind limit, inl refl, rw (nothing, zero_left) (simp append-nil)),
            ))
      | inr room ↦ elim (Bool-cases (leb (length chunk) (limit - s.used))) [
        | inl fits ↦
            subst (λ x. IsBounded limit kind s.used (chunk ++ total) (x ++ out))
              (sym (append-nil chunk) ∙ rw (f, room, fits) refl)
              (IsBounded-chunk limit kind s.used chunk total out (ground arith)
                (IsBounded-of_open limit kind _ total out (rw (f, room, fits) at d) refl))
        | inr over ↦
            let nothing = stopped-nil limit kind _ total out (rw (f, room, over) at d) refl in
            rw (f, room, over)
              (inr (
                ground (arith, length-append chunk total),
                (
                  b'\n' ∷ truncation_notice kind limit,
                  inr refl,
                  rw (nothing, take-append-le (limit - s.used) chunk total (ground arith))
                      (simp (append_assoc, append-nil)),
                ),
              ))
      ]
    ]

stream_chunk-stopped :
    (limit : ℕ) (kind chunk : Text) (s : StreamState)
    → s.truncated ≡ true
    → stream_chunk limit kind chunk s ≡ (s, [])
unfolding stream_chunk
stream_chunk-stopped limit kind chunk s t = rw t refl

stream_chunk-IsDelivered :
    (limit : ℕ) (kind chunk : Text) (s : StreamState) (total out : Text)
    → chunk ≢ []
    → s.used ≤ limit
    → IsDelivered limit kind (stream_chunk limit kind chunk s).0 total out
    → IsDelivered limit kind s (chunk ++ total) (joined (stream_chunk limit kind chunk s).1 ++ out)
stream_chunk-IsDelivered limit kind chunk s total out n h d = elim (Bool-cases s.truncated) [
  | inl t ↦
      let same = stream_chunk-stopped limit kind chunk s t in
      inl (
        t,
        subst (λ x. joined x.1 ++ out ≡ []) (sym same)
            (stopped-nil limit kind s total out
              (subst (λ x. IsDelivered limit kind x.0 total out) same d) t),
      )
  | inr f ↦ inr (f, open_chunk-IsBounded limit kind chunk s total out n h f d)
]

state_of-set_state :
    (kind k : Text) (s : StreamState) (states : List (Text × StreamState))
    → state_of kind (set_state k s states) ≡ (if k == kind then s else state_of kind states)
unfolding state_of set_state
state_of-set_state kind k s [] = ground arith
state_of-set_state kind k s ((j, t) ∷ states) =
    ground (arith, ==_iff j k, ==_iff j kind, ==_iff k kind, state_of-set_state kind k s states)

bounded_sink-nil :
    (limit : ℕ) (kind : Text) (states : List (Text × StreamState))
    → bounded_sink limit kind [] states ≡ (states, [])
unfolding bounded_sink text_beq
bounded_sink-nil limit kind states = refl

bounded_sink-cons :
    (limit : ℕ) (kind : Text) (c : ℕ) (chunk : Text) (states : List (Text × StreamState))
    → bounded_sink limit kind (c ∷ chunk) states ≡ (
      set_state kind (stream_chunk limit kind (c ∷ chunk) (state_of kind states)).0 states,
      (stream_chunk limit kind (c ∷ chunk) (state_of kind states)).1,
    )
unfolding bounded_sink text_beq
bounded_sink-cons limit kind c chunk states = refl

-- A call for the kind.
bounded_sink-IsDelivered :
    (limit : ℕ) (kind chunk : Text) (states : List (Text × StreamState)) (total out : Text)
    → (state_of kind states).used ≤ limit
    → IsDelivered limit kind (state_of kind (bounded_sink limit kind chunk states).0) total out
    → IsDelivered limit kind
        (state_of kind states)
        (chunk ++ total)
        (joined (bounded_sink limit kind chunk states).1 ++ out)
bounded_sink-IsDelivered limit kind [] states total out h d =
    let same = bounded_sink-nil limit kind states in
    subst (λ x. IsDelivered limit kind (state_of kind states) total (joined x.1 ++ out)) (sym same)
      (subst (λ x. IsDelivered limit kind (state_of kind x.0) total out) same d)
bounded_sink-IsDelivered limit kind (c ∷ chunk) states total out h d =
    let same = bounded_sink-cons limit kind c chunk states in
    let kept =
      state_of-set_state kind kind (stream_chunk limit kind (c ∷ chunk) (state_of kind states)).0
        states
      ∙ rw (==-refl kind) refl in
    subst
      (λ x.
        IsDelivered limit kind (state_of kind states) ((c ∷ chunk) ++ total) (joined x.1 ++ out))
      (sym same)
      (stream_chunk-IsDelivered limit kind (c ∷ chunk) (state_of kind states) total out (λ e. cc) h
        (subst (λ x. IsDelivered limit kind x total out) kept
          (subst (λ x. IsDelivered limit kind (state_of kind x.0) total out) same d)))

bounded_sink-used :
    (limit : ℕ) (kind k chunk : Text) (states : List (Text × StreamState))
    → (state_of kind states).used ≤ limit
    → (state_of kind (bounded_sink limit k chunk states).0).used ≤ limit
bounded_sink-used limit kind k [] states h = rw (bounded_sink-nil limit k states) h
bounded_sink-used limit kind k (c ∷ chunk) states h =
    rw
      (
        bounded_sink-cons limit k c chunk states,
        state_of-set_state kind k (stream_chunk limit k (c ∷ chunk) (state_of k states)).0 states,
      )
      (elim (Bool-cases (k == kind)) [
        | inl same ↦ rw same (
            rw ((==_iff k kind).0 same)
              (stream_chunk-used limit kind (c ∷ chunk) (state_of kind states) h))
        | inr other ↦ rw other h
      ])

bounded_sink-other :
    (limit : ℕ) (kind k chunk : Text) (states : List (Text × StreamState))
    → (k == kind) ≡ false
    → state_of kind (bounded_sink limit k chunk states).0 ≡ state_of kind states
bounded_sink-other limit kind k [] states h = rw (bounded_sink-nil limit k states) refl
bounded_sink-other limit kind k (c ∷ chunk) states h =
    rw (bounded_sink-cons limit k c chunk states) (state_of-set_state kind k _ states ∙ rw h refl)

passed-IsDelivered :
    (limit : ℕ) (kind : Text) (calls : List (Text × Text)) (states : List (Text × StreamState))
    → (state_of kind states).used ≤ limit
    → IsDelivered limit kind
        (state_of kind states)
        (given kind calls)
        (passed limit kind calls states)
unfolding given passed
passed-IsDelivered limit kind [] states h = elim (Bool-cases (state_of kind states).truncated) [
  | inl t ↦ inl (t, refl)
  | inr f ↦ inr (f, inl (omega arith, refl))
]
passed-IsDelivered limit kind ((k, chunk) ∷ calls) states h =
    let more =
      passed-IsDelivered limit kind calls (bounded_sink limit k chunk states).0
        (bounded_sink-used limit kind k chunk states h) in
    elim (Bool-cases (k == kind)) [
      | inl same ↦
          let out = passed limit kind calls (bounded_sink limit k chunk states).0 in
          rw same (
            subst
              (λ j.
                IsDelivered limit kind (state_of kind (bounded_sink limit j chunk states).0)
                  (given kind calls) out
                → IsDelivered limit kind (state_of kind states) (chunk ++ given kind calls)
                    (joined (bounded_sink limit j chunk states).1 ++ out))
              (sym ((==_iff k kind).0 same))
              (bounded_sink-IsDelivered limit kind chunk states (given kind calls) out h) more)
      | inr other ↦ rw other (
          subst
            (λ s.
              IsDelivered limit kind s (given kind calls)
                (passed limit kind calls (bounded_sink limit k chunk states).0))
            (bounded_sink-other limit kind k chunk states other) more)
    ]

-- What the bounded sink passes on under a kind, however the calls for other kinds lie between, is all
-- that it was given for the kind if that is at most the limit in bytes; otherwise it is the first
-- bytes up to the limit and one notice.
pub passed-IsBounded :
    (limit : ℕ) (kind : Text) (calls : List (Text × Text))
    → IsBounded limit kind 0 (given kind calls) (passed limit kind calls [])
unfolding state_of
passed-IsBounded limit kind calls =
    IsBounded-of_open limit kind (state_of kind []) _ _
      (passed-IsDelivered limit kind calls [] (omega arith)) refl
