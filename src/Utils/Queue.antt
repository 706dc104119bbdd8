-- ===== src/Utils/Queue.antt =====
-- src/utils.rs: `MessageQueue`. The broadcast channels are tokio's, which is a parameter.
use xprotocol.Prelude.{
  ℕ, ◌≡◌, refl, ap, ◌∙◌, String, Option, none, some, List, [], ◌∷◌, str_eq, if◌then◌else◌,
}
use xprotocol.Prelude.Dict.{Dict, get, insert, keys, get-insert}
use xprotocol.Error.{IoResult, io_ok, io_err}

-- Channels of capacity 1024: `channel` makes one; `send` gives the number of receivers, or fails
-- where there is none.
pub record Broadcast : Type 1 where
  pub World : Type 0
  pub Sender : Type 0
  pub Receiver : Type 0
  pub Message : Type 0
  pub channel : World → (Sender × Receiver) × World
  pub send : Message → Sender → World → IoResult ℕ × World

pub record MessageQueue (b : Broadcast) : Type 0 where
  pub topics : Dict b.Sender
  pub world : b.World

module _ (b : Broadcast) where
  open b use {World, Sender, Receiver, Message}

  abbrev pub new_message_queue : World → MessageQueue b
  new_message_queue w = record { topics = []; world = w }

  abbrev or_zero : IoResult ℕ × World → MessageQueue b → ℕ × MessageQueue b
  or_zero (io_ok n, w) q = (n, record q { world = w })
  or_zero (io_err e, w) q = (0, record q { world = w })

  abbrev pub publish_to : Message → Option Sender → MessageQueue b → ℕ × MessageQueue b
  publish_to m none q = (0, q)
  publish_to m (some s) q = or_zero (b.send m s q.world) q

  unfoldable pub publish : String → Message → MessageQueue b → ℕ × MessageQueue b
  publish topic m q = publish_to m (get topic q.topics) q

  abbrev pub store_sender :
      String → (Sender × Receiver) × World → MessageQueue b → Receiver × MessageQueue b
  store_sender topic ((s, r), w) q = (r, record { topics = insert topic s q.topics; world = w })

  unfoldable pub subscribe : String → MessageQueue b → Receiver × MessageQueue b
  subscribe topic q = store_sender topic (b.channel q.world) q

  abbrev pub topic_names : MessageQueue b → List String
  topic_names q = keys q.topics

  pub data Command : Type 0 where
    publishing : String → Message → Command
    subscribing : String → Command

  abbrev pub run : MessageQueue b → List Command → MessageQueue b
  run q [] = q
  run q (publishing topic m ∷ cs) = run (publish topic m q).1 cs
  run q (subscribing topic ∷ cs) = run (subscribe topic q).1 cs

  -- The sender of the newest channel of a topic: that of the last subscription to it.
  abbrev pub newest : String → Option Sender → MessageQueue b → List Command → Option Sender
  newest topic s q [] = s
  newest topic s q (publishing other m ∷ cs) = newest topic s (publish other m q).1 cs
  newest topic s q (subscribing other ∷ cs) =
      newest topic (if str_eq other topic then some (b.channel q.world).0.0 else s)
        (subscribe other q).1 cs

  publish-topics :
      (topic : String) (m : Message) (q : MessageQueue b) → (publish topic m q).1.topics ≡ q.topics
  unfolding publish
  publish-topics topic m q = to_sender (get topic q.topics)
    where
      sent : (x : IoResult ℕ × World) → (or_zero x q).1.topics ≡ q.topics
      sent (io_ok n, w) = refl
      sent (io_err e, w) = refl

      to_sender : (o : Option Sender) → (publish_to m o q).1.topics ≡ q.topics
      to_sender none = refl
      to_sender (some s) = sent (b.send m s q.world)

  subscribe-topics :
      (other topic : String) (q : MessageQueue b)
      → get topic (subscribe other q).1.topics
        ≡ (if str_eq other topic then some (b.channel q.world).0.0 else get topic q.topics)
  unfolding subscribe
  subscribe-topics other topic q = get-insert other topic (b.channel q.world).0.0 q.topics

  run-newest :
      (topic : String) (q : MessageQueue b) (cs : List Command)
      → get topic (run q cs).topics ≡ newest topic (get topic q.topics) q cs
  run-newest topic q [] = refl
  run-newest topic q (publishing other m ∷ cs) =
      run-newest topic (publish other m q).1 cs
      ∙ ap (λ t. newest topic (get topic t) (publish other m q).1 cs) (publish-topics other m q)
  run-newest topic q (subscribing other ∷ cs) =
      run-newest topic (subscribe other q).1 cs
      ∙ ap (λ s. newest topic s (subscribe other q).1 cs) (subscribe-topics other topic q)

  -- A topic has one subscriber, the newest: after any history, a message is sent on the channel
  -- that the last subscription to its topic made, and on no other.
  pub publish-newest :
      (topic : String) (m : Message) (q : MessageQueue b) (cs : List Command)
      → publish topic m (run q cs)
        ≡ publish_to m (newest topic (get topic q.topics) q cs) (run q cs)
  unfolding publish
  publish-newest topic m q cs = ap (λ s. publish_to m s (run q cs)) (run-newest topic q cs)
