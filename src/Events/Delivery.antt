-- ===== src/Events/Delivery.antt =====
-- Which channels an event reaches.
use ops_terminator.Base.{
  false, List, [], ◌∷◌, ◌≡◌, ◌≢◌, refl, ap, ◌∙◌, arith, ◌==◌, text_eq, ==_iff, ==-refl,
  if◌then◌else◌,
}
use ops_terminator.Base.Text.{Text, bytes}
use ops_terminator.Models.{Event}
use ops_terminator.Events.{Subscription, Hub, subscribers_of, offer_all, offer_to, emit}

subscribers_of-offer_to :
    (run key : Text) (e : Event) (m : List (Text × List Subscription))
    → subscribers_of run (offer_to key e m)
      ≡ (if key == run then offer_all e (subscribers_of run m) else subscribers_of run m)
unfolding subscribers_of offer_to offer_all
subscribers_of-offer_to run key e [] = ground arith
subscribers_of-offer_to run key e ((r, subs) ∷ m) =
    ground (arith, ==_iff r key, ==_iff r run, ==_iff key run, subscribers_of-offer_to run key e m)

-- After `Emit` a run's own channels were offered the event if it is an event of the run, and are as
-- they were otherwise.
pub emit-subscribers_of :
    (e : Event) (h : Hub) (run : Text)
    → run ≢ bytes "*"
    → subscribers_of run (emit e h).subscribers ≡ (
        if e.run_id == run
        then offer_all e (subscribers_of run h.subscribers)
        else subscribers_of run h.subscribers)
unfolding emit
emit-subscribers_of e h run n =
    let other : (bytes "*" == run) ≡ false = ground (arith, ==_iff (bytes "*") run) in
    subscribers_of-offer_to run (bytes "*") e _
    ∙ rw other (subscribers_of-offer_to run e.run_id e h.subscribers)

-- The channels for all runs are offered every event, once if its run is not named "*".
pub emit-subscribers_of_all :
    (e : Event) (h : Hub)
    → e.run_id ≢ bytes "*"
    → subscribers_of (bytes "*") (emit e h).subscribers
      ≡ offer_all e (subscribers_of (bytes "*") h.subscribers)
unfolding emit
emit-subscribers_of_all e h n =
    let other : (e.run_id == bytes "*") ≡ false = ground (arith, ==_iff e.run_id (bytes "*")) in
    subscribers_of-offer_to (bytes "*") (bytes "*") e _
    ∙ rw (==-refl (bytes "*")) (
        ap (offer_all e)
          (subscribers_of-offer_to (bytes "*") e.run_id e h.subscribers ∙ rw other refl))
