-- ===== src/Events/Bounded.antt =====
-- What the channels of a hub hold, and that a cancelled subscription leaves nothing behind.
use ops_terminator.Base.{
  ℕ, suc, ◌≤◌, false, List, [], ◌∷◌, ◌++◌, inl, inr, ◌≡◌, refl, ap, arith, ◌==◌, nat_eq, text_eq,
  ==_iff, ==-refl, Bool-cases, ltb, is_empty, All, All-append, All-imp,
}
use ops_terminator.Base.Text.{Text, bytes}
use ops_terminator.Models.{Event}
use ops_terminator.Events.{
  Subscription, Hub, channel_capacity, new_hub, count_events, add_subscription, subscribe,
  delete_subscription, cancel_in, cancel, behind_first, receive_from, receive_in, receive, offer,
  offer_all, offer_to, emit,
}

-- A subscription has an id that was given out, and its channel holds no more than its capacity.
pub record IsWithin (n : ℕ) (s : Subscription) : Type 0 where
  pub given : s.id ≤ n
  pub fits : count_events s.queue ≤ channel_capacity

-- The entry of a run has a subscription, and all of them are within bounds.
abbrev pub IsEntry : ℕ → Text × List Subscription → Type 0
IsEntry n entry = (is_empty entry.1 ≡ false) × All (IsWithin n) entry.1

abbrev pub IsBounded : Hub → Type 0
IsBounded h = All (IsEntry h.next_id) h.subscribers

count_events-append :
    (events : List Event) (e : Event)
    → count_events (events ++ (e ∷ [])) ≡ suc (count_events events)
count_events-append [] e = refl
count_events-append (_ ∷ events) e = ap suc (count_events-append events e)

offer-IsWithin : {n : ℕ} (e : Event) (s : Subscription) → IsWithin n s → IsWithin n (offer e s)
unfolding offer
offer-IsWithin e s w = elim (Bool-cases (ltb (count_events s.queue) channel_capacity)) [
  | inl room ↦
      rw room (record { given = w.given; fits = ground (arith, count_events-append s.queue e) })
  | inr full ↦ rw full w
]

offer_all-IsEntry :
    (n : ℕ) (e : Event) (r : Text) (subs : List Subscription)
    → IsEntry n (r, subs)
    → IsEntry n (r, offer_all e subs)
unfolding offer_all
offer_all-IsEntry n e r [] w = w
offer_all-IsEntry n e r (s ∷ subs) w = (refl, (offer-IsWithin e s w.1.0, within subs w.1.1))
  where
    within : (xs : List Subscription) → All (IsWithin n) xs → All (IsWithin n) (offer_all e xs)
    within [] h = tt
    within (x ∷ xs) h = (offer-IsWithin e x h.0, within xs h.1)

offer_to-All :
    (n : ℕ) (run : Text) (e : Event) (m : List (Text × List Subscription))
    → All (IsEntry n) m
    → All (IsEntry n) (offer_to run e m)
unfolding offer_to
offer_to-All n run e [] h = tt
offer_to-All n run e ((r, subs) ∷ m) h = elim (Bool-cases (r == run)) [
  | inl same ↦ rw same (offer_all-IsEntry n e r subs h.0, h.1)
  | inr other ↦ rw other (h.0, offer_to-All n run e m h.1)
]

emit-IsBounded : (e : Event) (h : Hub) → IsBounded h → IsBounded (emit e h)
unfolding emit
emit-IsBounded e h b = offer_to-All _ (bytes "*") e _ (offer_to-All _ e.run_id e h.subscribers b)

IsWithin-suc : (n : ℕ) (s : Subscription) → IsWithin n s → IsWithin (suc n) s
IsWithin-suc n s i = let given = i.given in record { given = omega arith; fits = i.fits }

IsEntry-suc :
    (n : ℕ) (m : List (Text × List Subscription)) → All (IsEntry n) m → All (IsEntry (suc n)) m
IsEntry-suc n m = All-imp m (λ x w. (w.0, All-imp x.1 (λ s i. IsWithin-suc n s i) w.1))

is_empty-append :
    (subs : List Subscription) (s : Subscription) → is_empty (subs ++ (s ∷ [])) ≡ false
is_empty-append [] s = refl
is_empty-append (_ ∷ _) s = refl

add_subscription-All :
    (n : ℕ) (run : Text) (s : Subscription) (m : List (Text × List Subscription))
    → IsWithin n s
    → All (IsEntry n) m
    → All (IsEntry n) (add_subscription run s m)
unfolding add_subscription
add_subscription-All n run s [] w h = ((refl, (w, tt)), tt)
add_subscription-All n run s ((r, subs) ∷ m) w h = elim (Bool-cases (r == run)) [
  | inl same ↦ rw same ((is_empty-append subs s, All-append (IsWithin n) subs _ h.0.1 (w, tt)), h.1)
  | inr other ↦ rw other (h.0, add_subscription-All n run s m w h.1)
]

subscribe-IsBounded : (run : Text) (h : Hub) → IsBounded h → IsBounded (subscribe run h).0
unfolding subscribe
subscribe-IsBounded run h b =
    add_subscription-All _ run _ h.subscribers (record { given = omega arith; fits = omega arith })
      (IsEntry-suc h.next_id h.subscribers b)

delete_subscription-All :
    (n : ℕ) (id : ℕ) (subs : List Subscription)
    → All (IsWithin n) subs
    → All (IsWithin n) (delete_subscription id subs)
unfolding delete_subscription
delete_subscription-All n id [] h = tt
delete_subscription-All n id (s ∷ subs) h = elim (Bool-cases (s.id == id)) [
  | inl same ↦ rw same (delete_subscription-All n id subs h.1)
  | inr other ↦ rw other (h.0, delete_subscription-All n id subs h.1)
]

cancel_in-All :
    (n : ℕ) (run : Text) (id : ℕ) (m : List (Text × List Subscription))
    → All (IsEntry n) m
    → All (IsEntry n) (cancel_in run id m)
unfolding cancel_in
cancel_in-All n run id [] h = tt
cancel_in-All n run id ((r, subs) ∷ m) h = elim (Bool-cases (r == run)) [
  | inl same ↦ elim (Bool-cases (is_empty (delete_subscription id subs))) [
    | inl gone ↦ rw (same, gone) h.1
    | inr left ↦ rw (same, left) ((left, delete_subscription-All n id subs h.0.1), h.1)
  ]
  | inr other ↦ rw other (h.0, cancel_in-All n run id m h.1)
]

cancel-IsBounded : (run : Text) (id : ℕ) (h : Hub) → IsBounded h → IsBounded (cancel run id h)
unfolding cancel
cancel-IsBounded run id h b = cancel_in-All _ run id h.subscribers b

count_events-behind_first :
    (events : List Event) → count_events (behind_first events) ≤ count_events events
count_events-behind_first [] = omega arith
count_events-behind_first (_ ∷ events) = omega arith

behind_first-IsWithin :
    (n : ℕ) (s : Subscription)
    → IsWithin n s
    → IsWithin n (record s { queue = behind_first s.queue })
behind_first-IsWithin n s w =
    let fits = w.fits in
    let less = count_events-behind_first s.queue in record { given = w.given; fits = omega arith }

receive_from-IsEntry :
    (n id : ℕ) (r : Text) (subs : List Subscription)
    → IsEntry n (r, subs)
    → IsEntry n (r, receive_from id subs)
unfolding receive_from
receive_from-IsEntry n id r [] w = w
receive_from-IsEntry n id r (s ∷ subs) w = elim (Bool-cases (s.id == id)) [
  | inl same ↦ rw same (refl, (behind_first-IsWithin n s w.1.0, w.1.1))
  | inr other ↦ rw other (refl, (w.1.0, within subs w.1.1))
]
  where
    within : (xs : List Subscription) → All (IsWithin n) xs → All (IsWithin n) (receive_from id xs)
    within [] h = tt
    within (x ∷ xs) h = elim (Bool-cases (x.id == id)) [
      | inl same ↦ rw same (behind_first-IsWithin n x h.0, h.1)
      | inr other ↦ rw other (h.0, within xs h.1)
    ]

receive_in-All :
    (n : ℕ) (run : Text) (id : ℕ) (m : List (Text × List Subscription))
    → All (IsEntry n) m
    → All (IsEntry n) (receive_in run id m)
unfolding receive_in
receive_in-All n run id [] h = tt
receive_in-All n run id ((r, subs) ∷ m) h = elim (Bool-cases (r == run)) [
  | inl same ↦ rw same (receive_from-IsEntry n id r subs h.0, h.1)
  | inr other ↦ rw other (h.0, receive_in-All n run id m h.1)
]

receive-IsBounded : (run : Text) (id : ℕ) (h : Hub) → IsBounded h → IsBounded (receive run id h)
unfolding receive
receive-IsBounded run id h b = receive_in-All _ run id h.subscribers b

-- The hubs that the operations make, in any order, with receives from the channels in between.
pub data IsReachable : Hub → Type 0 where
  created : IsReachable new_hub
  subscribed : (run : Text) {h : Hub} → IsReachable h → IsReachable (subscribe run h).0
  cancelled : (run : Text) (id : ℕ) {h : Hub} → IsReachable h → IsReachable (cancel run id h)
  emitted : (e : Event) {h : Hub} → IsReachable h → IsReachable (emit e h)
  received : (run : Text) (id : ℕ) {h : Hub} → IsReachable h → IsReachable (receive run id h)

pub IsReachable-IsBounded : {h : Hub} → IsReachable h → IsBounded h
IsReachable-IsBounded created = tt
IsReachable-IsBounded (subscribed run {h} r) = subscribe-IsBounded run h (IsReachable-IsBounded r)
IsReachable-IsBounded (cancelled run id {h} r) = cancel-IsBounded run id h (IsReachable-IsBounded r)
IsReachable-IsBounded (emitted e {h} r) = emit-IsBounded e h (IsReachable-IsBounded r)
IsReachable-IsBounded (received run id {h} r) = receive-IsBounded run id h (IsReachable-IsBounded r)

-- A new id is none of those in use.
delete_subscription-fresh :
    (n : ℕ) (subs : List Subscription)
    → All (IsWithin n) subs
    → delete_subscription (suc n) subs ≡ subs
unfolding delete_subscription
delete_subscription-fresh n [] h = refl
delete_subscription-fresh n (s ∷ subs) h =
    let given = h.0.given in
    let other : (s.id == suc n) ≡ false = ground arith in
    rw other (ap (◌∷◌ s) (delete_subscription-fresh n subs h.1))

delete_subscription-append :
    (id : ℕ) (subs : List Subscription) (s : Subscription)
    → s.id ≡ id
    → delete_subscription id (subs ++ (s ∷ [])) ≡ delete_subscription id subs
unfolding delete_subscription
delete_subscription-append id [] s e = rw ((==_iff s.id id).1 e) refl
delete_subscription-append id (x ∷ subs) s e = elim (Bool-cases (x.id == id)) [
  | inl same ↦ rw same (delete_subscription-append id subs s e)
  | inr other ↦ rw other (ap (◌∷◌ x) (delete_subscription-append id subs s e))
]

cancel_in-add_subscription :
    (n : ℕ) (run : Text) (s : Subscription) (m : List (Text × List Subscription))
    → s.id ≡ suc n
    → All (IsEntry n) m
    → cancel_in run (suc n) (add_subscription run s m) ≡ m
unfolding cancel_in add_subscription
cancel_in-add_subscription n run s [] e h =
    rw (==-refl run, delete_subscription-append (suc n) [] s e) (unfold delete_subscription in refl)
cancel_in-add_subscription n run s ((r, subs) ∷ m) e h = elim (Bool-cases (r == run)) [
  | inl same ↦
      rw
        (
          same,
          same,
          delete_subscription-append (suc n) subs s e,
          delete_subscription-fresh n subs h.0.1,
          h.0.0,
        )
        refl
  | inr other ↦ rw (other, other) (ap (◌∷◌ (r, subs)) (cancel_in-add_subscription n run s m e h.1))
]

-- A subscription that is cancelled at once leaves the map of the hub as it was: its id is new, so
-- that no other channel is closed, and an entry that was made for it goes.
pub cancel-subscribe :
    (run : Text) (h : Hub)
    → IsReachable h
    → (cancel run (subscribe run h).1 (subscribe run h).0).subscribers ≡ h.subscribers
unfolding cancel subscribe
cancel-subscribe run h r =
    cancel_in-add_subscription h.next_id run _ h.subscribers refl (IsReachable-IsBounded r)
