-- ===== src/Events/Once.antt =====
-- No two channels of a hub have the same id.
use ops_terminator.Base.{
  ℕ, suc, ◌+◌, ◌≤◌, ◌<◌, false, List, [], ◌∷◌, ◌++◌, ◌≡◌, inl, inr, refl, ap, ap₂, arith, ◌==◌,
  nat_eq, text_eq, Bool-cases, is_empty, if◌then◌else◌, All,
}
use ops_terminator.Base.Text.{Text, bytes}
use ops_terminator.Models.{Event}
use ops_terminator.Events.{
  Subscription, Hub, add_subscription, subscribe, delete_subscription, cancel_in, cancel,
  receive_from, receive_in, receive, offer, offer_all, offer_to, emit,
}
use ops_terminator.Events.Bounded.{
  IsWithin, IsEntry, IsBounded, IsReachable, created, subscribed, cancelled, emitted, received,
  IsReachable-IsBounded,
}

-- How many channels of one run have the id, and how many of all runs.
unfoldable pub count_among : ℕ → List Subscription → ℕ
count_among id [] = 0
count_among id (s ∷ subs) = (if s.id == id then 1 else 0) + count_among id subs

unfoldable pub count_id : ℕ → List (Text × List Subscription) → ℕ
count_id id [] = 0
count_id id ((r, subs) ∷ m) = count_among id subs + count_id id m

-- Each id is that of at most one channel.
abbrev pub IsOnce : Hub → Type 0
IsOnce h = (id : ℕ) → count_id id h.subscribers ≤ 1

offer-id : (e : Event) (s : Subscription) → (offer e s).id ≡ s.id
unfolding offer
offer-id e s = ground arith

count_among-offer_all :
    (id : ℕ) (e : Event) (subs : List Subscription)
    → count_among id (offer_all e subs) ≡ count_among id subs
unfolding count_among offer_all
count_among-offer_all id e [] = refl
count_among-offer_all id e (s ∷ subs) =
    ap₂ (λ (n k : ℕ). (if n == id then 1 else 0) + k) (offer-id e s)
      (count_among-offer_all id e subs)

count_id-offer_to :
    (id : ℕ) (run : Text) (e : Event) (m : List (Text × List Subscription))
    → count_id id (offer_to run e m) ≡ count_id id m
unfolding count_id offer_to
count_id-offer_to id run e [] = refl
count_id-offer_to id run e ((r, subs) ∷ m) = elim (Bool-cases (r == run)) [
  | inl same ↦ rw same (ap (λ n. n + count_id id m) (count_among-offer_all id e subs))
  | inr other ↦ rw other (ap (λ n. count_among id subs + n) (count_id-offer_to id run e m))
]

count_among-receive_from :
    (id k : ℕ) (subs : List Subscription)
    → count_among id (receive_from k subs) ≡ count_among id subs
unfolding count_among receive_from
count_among-receive_from id k [] = refl
count_among-receive_from id k (s ∷ subs) = elim (Bool-cases (s.id == k)) [
  | inl same ↦ rw same refl
  | inr other ↦
      rw other (ap (λ n. (if s.id == id then 1 else 0) + n) (count_among-receive_from id k subs))
]

count_id-receive_in :
    (id : ℕ) (run : Text) (k : ℕ) (m : List (Text × List Subscription))
    → count_id id (receive_in run k m) ≡ count_id id m
unfolding count_id receive_in
count_id-receive_in id run k [] = refl
count_id-receive_in id run k ((r, subs) ∷ m) = elim (Bool-cases (r == run)) [
  | inl same ↦ rw same (ap (λ n. n + count_id id m) (count_among-receive_from id k subs))
  | inr other ↦ rw other (ap (λ n. count_among id subs + n) (count_id-receive_in id run k m))
]

count_among-delete_subscription :
    (id k : ℕ) (subs : List Subscription)
    → count_among id (delete_subscription k subs) ≤ count_among id subs
unfolding count_among delete_subscription
count_among-delete_subscription id k [] = omega arith
count_among-delete_subscription id k (s ∷ subs) =
    let rest = count_among-delete_subscription id k subs in
    elim (Bool-cases (s.id == k)) [
      | inl same ↦ rw same (omega arith)
      | inr other ↦ rw other (unfold count_among in omega arith)
    ]

count_id-cancel_in :
    (id : ℕ) (run : Text) (k : ℕ) (m : List (Text × List Subscription))
    → count_id id (cancel_in run k m) ≤ count_id id m
unfolding count_id cancel_in
count_id-cancel_in id run k [] = omega arith
count_id-cancel_in id run k ((r, subs) ∷ m) =
    let fewer = count_among-delete_subscription id k subs in
    let rest = count_id-cancel_in id run k m in
    elim (Bool-cases (r == run)) [
      | inl same ↦ elim (Bool-cases (is_empty (delete_subscription k subs))) [
        | inl gone ↦ rw (same, gone) (omega arith)
        | inr left ↦ rw (same, left) (omega arith)
      ]
      | inr other ↦ rw other (omega arith)
    ]

count_among-append :
    (id : ℕ) (subs : List Subscription) (s : Subscription)
    → count_among id (subs ++ (s ∷ [])) ≡ (if s.id == id then 1 else 0) + count_among id subs
unfolding count_among
count_among-append id [] s = refl
count_among-append id (x ∷ subs) s = let rest = count_among-append id subs s in omega arith

count_id-add_subscription :
    (id : ℕ) (run : Text) (s : Subscription) (m : List (Text × List Subscription))
    → count_id id (add_subscription run s m) ≡ (if s.id == id then 1 else 0) + count_id id m
unfolding count_id count_among add_subscription
count_id-add_subscription id run s [] = omega arith
count_id-add_subscription id run s ((r, subs) ∷ m) =
    let more = count_among-append id subs s in
    let rest = count_id-add_subscription id run s m in
    elim (Bool-cases (r == run)) [
      | inl same ↦ rw same (omega arith)
      | inr other ↦ rw other (omega arith)
    ]

-- An id that was not given out yet is that of no channel.
count_among-fresh :
    (n id : ℕ) (subs : List Subscription) → n < id → All (IsWithin n) subs → count_among id subs ≡ 0
unfolding count_among
count_among-fresh n id [] new h = refl
count_among-fresh n id (s ∷ subs) new h =
    let given = h.0.given in
    let other : (s.id == id) ≡ false = ground arith in
    let rest = count_among-fresh n id subs new h.1 in rw other (omega arith)

count_id-fresh :
    (n id : ℕ) (m : List (Text × List Subscription))
    → n < id
    → All (IsEntry n) m
    → count_id id m ≡ 0
unfolding count_id
count_id-fresh n id [] new h = refl
count_id-fresh n id ((r, subs) ∷ m) new h =
    let among = count_among-fresh n id subs new h.0.1 in
    let rest = count_id-fresh n id m new h.1 in omega arith

subscribe-IsOnce : (run : Text) (h : Hub) → IsBounded h → IsOnce h → IsOnce (subscribe run h).0
unfolding subscribe
subscribe-IsOnce run h b once id =
    let new : Subscription = record { id = suc h.next_id; queue = [] } in
    let count = count_id-add_subscription id run new h.subscribers in
    let before = once id in
    elim (Bool-cases (suc h.next_id == id)) [
      | inl same ↦
          let fresh = count_id-fresh h.next_id id h.subscribers (ground arith) b in ground arith
      | inr other ↦ ground arith
    ]

emit-IsOnce : (e : Event) (h : Hub) → IsOnce h → IsOnce (emit e h)
unfolding emit
emit-IsOnce e h once id =
    let before = once id in
    let first = count_id-offer_to id e.run_id e h.subscribers in
    let second = count_id-offer_to id (bytes "*") e (offer_to e.run_id e h.subscribers) in
    omega arith

cancel-IsOnce : (run : Text) (k : ℕ) (h : Hub) → IsOnce h → IsOnce (cancel run k h)
unfolding cancel
cancel-IsOnce run k h once id =
    let before = once id in let fewer = count_id-cancel_in id run k h.subscribers in omega arith

receive-IsOnce : (run : Text) (k : ℕ) (h : Hub) → IsOnce h → IsOnce (receive run k h)
unfolding receive
receive-IsOnce run k h once id =
    let before = once id in let same = count_id-receive_in id run k h.subscribers in omega arith

reachable-IsOnce : {h : Hub} → IsReachable h → IsOnce h
unfolding count_id
reachable-IsOnce created = λ id. omega arith
reachable-IsOnce (subscribed run {h} r) =
    subscribe-IsOnce run h (IsReachable-IsBounded r) (reachable-IsOnce r)
reachable-IsOnce (cancelled run k {h} r) = cancel-IsOnce run k h (reachable-IsOnce r)
reachable-IsOnce (emitted e {h} r) = emit-IsOnce e h (reachable-IsOnce r)
reachable-IsOnce (received run k {h} r) = receive-IsOnce run k h (reachable-IsOnce r)

-- In every hub that can be reached no channel holds more than its capacity, every id was given out
-- by the counter, no two channels have the same id, be they of one run or of two, and no run is in
-- the map without a channel.
pub IsReachable-IsOnce : {h : Hub} → IsReachable h → IsBounded h × IsOnce h
IsReachable-IsOnce r = (IsReachable-IsBounded r, reachable-IsOnce r)
