-- ===== src/Hub/Relayed.antt =====
-- Payment events on every process: DeliverToUsers here, and DeliverFanout where the relay hands the
-- message on.
use nim_near.Prelude.{
  ℕ, ◌≡◌, refl, ap, ◌∙◌, false, not, ◌&&◌, Option, some, List, [], ◌∷◌, arith, ◌==◌, if◌then◌else◌,
  Text, text_eq,
}
use nim_near.Realtime.{StatusChanged, contains_id, unique_user_ids}
use nim_near.Hub.Rooms.{Uuids, IsUuids}
use nim_near.Hub.State.{Hub, Pipe, returns, pushed, new_hub}
use nim_near.Hub.Sound.{IsSound}
use nim_near.Hub.Safe.{empty-IsSound}
use nim_near.Hub.Reached.{Reach-IsSound}
use nim_near.Hub.Private.{Reach-AreOwned}
use nim_near.Hub.Calls.{Reach}
use nim_near.Hub.Delivered.{Sends}
use nim_near.Hub.Owned.{AreOwned}
use nim_near.Hub.Addressed.{
  is_addressed, is_addressed-same, Delivers, deliver_each-Delivers, unique_from-contains,
  unique_from-IsDistinct, unique_from-nonzero,
}
use nim_near.Hub.Bridge.{
  deliver_to_users, deliver_fanout, relay_publish, relayed_ids, parsed_ids, handle_payment_event,
}

module _ (uuids : Uuids) (laws : IsUuids uuids) where
  -- What another process reads of the ids that were published.
  parsed_ids-relayed_ids :
      (v : ℕ) (ids : List ℕ)
      → contains_id v (parsed_ids uuids (relayed_ids uuids ids))
        ≡ (contains_id v ids && not (v == 0))
  unfolding parsed_ids relayed_ids contains_id
  parsed_ids-relayed_ids v [] = refl
  parsed_ids-relayed_ids v (u ∷ us) = ground (arith, (laws u).0, parsed_ids-relayed_ids v us)

  unique_user_ids-contains :
      (ids : List ℕ) (v : ℕ)
      → contains_id v (unique_user_ids ids) ≡ (contains_id v ids && not (v == 0))
  unfolding unique_user_ids contains_id
  unique_user_ids-contains ids v = ground (arith, unique_from-contains v [] ids)

  module _ {M : Type 0} (m : M) (h : Hub M) (s : IsSound h) (open_hub : h.is_closed ≡ false)
      (owned : AreOwned uuids laws h.clients) where
    same_addressed :
        (others ids : List ℕ) (i : ℕ) {q : Pipe M}
        → ((v : ℕ) → contains_id v others ≡ (contains_id v ids && not (v == 0)))
        → q ≡ (if is_addressed uuids others i h.clients then pushed m (h.pipes i) else h.pipes i)
        → q ≡ (if is_addressed uuids ids i h.clients then pushed m (h.pipes i) else h.pipes i)
    same_addressed others ids i e f =
        f
        ∙ ap (λ b. if b then pushed m (h.pipes i) else h.pipes i)
            (is_addressed-same uuids ids others i h.clients e)

    deliver_to_users-Delivers :
        (ids : List ℕ)
        → Delivers uuids laws
            (deliver_to_users uuids ids m h)
            (λ i. is_addressed uuids ids i h.clients)
            m
            h
    unfolding deliver_to_users unique_user_ids
    deliver_to_users-Delivers ids =
        let r =
          deliver_each-Delivers uuids laws (unique_user_ids ids) m h (unique_from-IsDistinct [] ids)
            (unique_from-nonzero [] ids) s open_hub owned in
        (
          r.0,
          r.1,
          (λ i. same_addressed (unique_user_ids ids) ids i (unique_user_ids-contains ids) (r.2 i)),
          r.3,
          r.4,
        )

    deliver_fanout-Delivers :
        (here there : Text) (ids : List ℕ)
        → text_eq here there ≡ false
        → Delivers uuids laws
            (deliver_fanout uuids there (relay_publish uuids here ids m) h)
            (λ i. is_addressed uuids ids i h.clients)
            m
            h
    unfolding deliver_fanout relay_publish
    deliver_fanout-Delivers here there ids e =
        let r = deliver_to_users-Delivers (parsed_ids uuids (relayed_ids uuids ids)) in
        (
          r.0,
          rw e r.1,
          (λ i.
              same_addressed (parsed_ids uuids (relayed_ids uuids ids)) ids i
                (λ v. parsed_ids-relayed_ids v ids) (r.2 i)),
          r.3,
          r.4,
        )

-- A hub that orderly calls (Calls.IsOrderly) have led to from an empty one.
module _ (uuids : Uuids) (laws : IsUuids uuids) {M : Type 0} (max : ℕ) (pipes : ℕ → Pipe M)
    {h : Hub M} (reached : Reach uuids (new_hub max pipes) h) (open_hub : h.is_closed ≡ false)
    (m : M) where
  -- On a hub that is open and that orderly calls (fresh client ids, and no end of a session whose
  -- client is in a room) have led to from an empty one, where
  -- the texts of UUIDs have no colon and are read back by uuid.Parse, an event whose message is
  -- encoded is handled without a panic: the message is sent once to every client of an addressed
  -- user that is in the user's payments room and to nobody else, and the relay gets the addressed
  -- ids.
  pub handle_payment_event-Sends :
      (instance_id : Text) (encode : StatusChanged → Option M) (changed : StatusChanged)
      → encode changed ≡ some m
      → (t : Hub M) × (handle_payment_event uuids (some instance_id) encode changed h
          ≡ returns (t, some (relay_publish uuids instance_id changed.user_ids m)))
        × Sends (λ i. is_addressed uuids changed.user_ids i h.clients) m h.pipes t.pipes
  unfolding handle_payment_event
  handle_payment_event-Sends instance_id encode changed e =
      let r =
        deliver_to_users-Delivers uuids laws m h
          (Reach-IsSound uuids (empty-IsSound (new_hub max pipes) refl refl) reached) open_hub
          (Reach-AreOwned uuids laws (empty-IsSound (new_hub max pipes) refl refl) tt reached)
          changed.user_ids in
      (r.0, rw (e, r.1) refl, r.2)

  -- On such a hub of a process with another instance id, what was published for some users is
  -- handled without a panic: the message is sent once to every client there of one of the users
  -- that is in the user's payments room, and to nobody else.
  pub deliver_fanout-Sends :
      (here there : Text) (ids : List ℕ)
      → text_eq here there ≡ false
      → (t : Hub M) × (deliver_fanout uuids there (relay_publish uuids here ids m) h ≡ returns t)
        × Sends (λ i. is_addressed uuids ids i h.clients) m h.pipes t.pipes
  deliver_fanout-Sends here there ids e =
      let r =
        deliver_fanout-Delivers uuids laws m h
          (Reach-IsSound uuids (empty-IsSound (new_hub max pipes) refl refl) reached) open_hub
          (Reach-AreOwned uuids laws (empty-IsSound (new_hub max pipes) refl refl) tt reached) here
          there ids e in
      (r.0, r.1, r.2)
