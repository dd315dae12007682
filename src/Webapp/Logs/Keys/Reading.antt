-- ===== src/Webapp/Logs/Keys/Reading.antt =====
-- utils/logParsing.ts: what is read back from the key of a filter.
use composable_nouns_monorep.Common.{
  ℕ, ◌≡◌, ◌≢◌, refl, ap, ◌∙◌, false, Option, none, some, List, [], ◌∷◌, ◌++◌, ◌==◌, map,
}
use composable_nouns_monorep.Sdk.Hex.{Text}
use composable_nouns_monorep.Webapp.Proposals.Details.{split, Lacks}
use composable_nouns_monorep.Webapp.Logs.Keys.Separators.{
  AllLack, split-append, split-all, split-join, Lacks-join,
}
use composable_nouns_monorep.Webapp.Logs.Keys.{
  Topic, one, any_of, EventFilter, join, topic_to_text, address_to_text, topics_to_text,
  filter_to_key, topic_of_parts, address_of, filter_of_pieces, key_to_filter,
}

-- The texts of a topic, of the topics.
abbrev pub TopicLacks : ℕ → Option Topic → Type 0
TopicLacks d none = Unit
TopicLacks d (some (one t)) = Lacks d t
TopicLacks d (some (any_of ts)) = AllLack d ts

abbrev pub TopicsLack : ℕ → List (Option Topic) → Type 0
TopicsLack d [] = Unit
TopicsLack d (t ∷ ts) = TopicLacks d t × TopicsLack d ts

-- A topic as it is read back: alternatives of which there is one are that one, no alternatives are
-- an empty text, and null and an empty text are the null character.
abbrev pub read_topic : Option Topic → Option Topic
read_topic none = some (one (0 ∷ []))
read_topic (some (one [])) = some (one (0 ∷ []))
read_topic (some (one (c ∷ cs))) = some (one (c ∷ cs))
read_topic (some (any_of [])) = some (one [])
read_topic (some (any_of (t ∷ ts))) = some (topic_of_parts (t ∷ ts))

-- No topics are one that is empty.
abbrev pub read_topics : Option (List (Option Topic)) → List (Option Topic)
read_topics none = some (one []) ∷ []
read_topics (some []) = some (one []) ∷ []
read_topics (some (t ∷ ts)) = map read_topic (t ∷ ts)

abbrev pub read_filter : EventFilter → EventFilter
read_filter f = record {
  address = address_of (address_to_text f.address);
  topics = some (read_topics f.topics);
  from_block = none;
}

-- The parts of a filter have none of the separators.
pub record IsSeparable (f : EventFilter) : Type 0 where
  pub address : Lacks b':' (address_to_text f.address)
  pub topics : (ts : List (Option Topic)) → f.topics ≡ some ts → TopicsLack b':' ts
  pub dashes : (ts : List (Option Topic)) → f.topics ≡ some ts → TopicsLack b'-' ts
  pub semicolons : (ts : List (Option Topic)) → f.topics ≡ some ts → TopicsLack b';' ts

text_to_topic-topic_to_text :
    (o : Option Topic)
    → TopicLacks b';' o
    → some (topic_of_parts (split b';' (topic_to_text o))) ≡ read_topic o
text_to_topic-topic_to_text none h = refl
text_to_topic-topic_to_text (some (one [])) h = refl
text_to_topic-topic_to_text (some (one (c ∷ cs))) h =
    ap (λ l. some (topic_of_parts l)) (split-all b';' (c ∷ cs) h)
text_to_topic-topic_to_text (some (any_of [])) h = refl
text_to_topic-topic_to_text (some (any_of (t ∷ ts))) h =
    ap (λ l. some (topic_of_parts l)) (split-join b';' t ts h)

Lacks-topic_to_text :
    (e : ℕ) (o : Option Topic)
    → (0 == e) ≡ false
    → (b';' == e) ≡ false
    → TopicLacks e o
    → Lacks e (topic_to_text o)
Lacks-topic_to_text e none z n h = (z, tt)
Lacks-topic_to_text e (some (one [])) z n h = (z, tt)
Lacks-topic_to_text e (some (one (c ∷ cs))) z n h = h
Lacks-topic_to_text e (some (any_of ts)) z n h = Lacks-join b';' e ts n h

AllLack-topics :
    (e : ℕ) (ts : List (Option Topic))
    → (0 == e) ≡ false
    → (b';' == e) ≡ false
    → TopicsLack e ts
    → AllLack e (map topic_to_text ts)
AllLack-topics e [] z n h = tt
AllLack-topics e (t ∷ ts) z n h = (Lacks-topic_to_text e t z n h.0, AllLack-topics e ts z n h.1)

topics-read :
    (ts : List (Option Topic))
    → TopicsLack b';' ts
    → map (λ t. some (topic_of_parts (split b';' t))) (map topic_to_text ts) ≡ map read_topic ts
topics-read [] h = refl
topics-read (t ∷ ts) h = rw (text_to_topic-topic_to_text t h.0, topics-read ts h.1) refl

topics_of_text :
    (o : Option (List (Option Topic)))
    → ((ts : List (Option Topic)) → o ≡ some ts → TopicsLack b'-' ts)
    → ((ts : List (Option Topic)) → o ≡ some ts → TopicsLack b';' ts)
    → map (λ t. some (topic_of_parts (split b';' t))) (split b'-' (topics_to_text o))
      ≡ read_topics o
topics_of_text none h k = refl
topics_of_text (some []) h k = refl
topics_of_text (some (t ∷ ts)) h k =
    let all = AllLack-topics b'-' (t ∷ ts) refl refl (h (t ∷ ts) refl) in
    ap (λ l. map (λ t. some (topic_of_parts (split b';' t))) l)
      (split-join b'-' (topic_to_text t) (map topic_to_text ts) all)
    ∙ topics-read (t ∷ ts) (k (t ∷ ts) refl)

Lacks-topics_to_text :
    (o : Option (List (Option Topic)))
    → ((ts : List (Option Topic)) → o ≡ some ts → TopicsLack b':' ts)
    → Lacks b':' (topics_to_text o)
Lacks-topics_to_text none h = tt
Lacks-topics_to_text (some ts) h =
    Lacks-join b'-' b':' (map topic_to_text ts) refl (AllLack-topics b':' ts refl refl (h ts refl))

key_to_filter-filter_to_key :
    (f : EventFilter) → IsSeparable f → key_to_filter (filter_to_key f) ≡ some (read_filter f)
unfolding key_to_filter filter_to_key
key_to_filter-filter_to_key f h =
    ap filter_of_pieces (
      split-append b':' (address_to_text f.address) (topics_to_text f.topics) h.address
      ∙ ap (λ l. address_to_text f.address ∷ l)
          (split-all b':' (topics_to_text f.topics) (Lacks-topics_to_text f.topics h.topics)))
    ∙ ap
        (λ ts. some (record {
          address = address_of (address_to_text f.address);
          topics = some ts;
          from_block = none;
        }))
        (topics_of_text f.topics h.dashes h.semicolons)

-- Each topic has a text.
abbrev pub AreTexts : List (Option Topic) → Type 0
AreTexts [] = Unit
AreTexts (t ∷ ts) = (topic_to_text t ≢ []) × AreTexts ts

topic_to_text-read_topic :
    (o : Option Topic) → topic_to_text o ≢ [] → topic_to_text (read_topic o) ≡ topic_to_text o
topic_to_text-read_topic none h = refl
topic_to_text-read_topic (some (one [])) h = refl
topic_to_text-read_topic (some (one (c ∷ cs))) h = refl
topic_to_text-read_topic (some (any_of [])) h = absurd (h refl)
topic_to_text-read_topic (some (any_of ([] ∷ []))) h = absurd (h refl)
topic_to_text-read_topic (some (any_of ((c ∷ t) ∷ []))) h = refl
topic_to_text-read_topic (some (any_of (t ∷ u ∷ ts))) h = refl

texts-read :
    (ts : List (Option Topic))
    → AreTexts ts
    → map topic_to_text (map read_topic ts) ≡ map topic_to_text ts
texts-read [] h = refl
texts-read (t ∷ ts) h = rw (topic_to_text-read_topic t h.0, texts-read ts h.1) refl

address-read : (t : Text) → address_to_text (address_of t) ≡ t
address-read [] = refl
address-read (c ∷ cs) = refl

-- The filter that is read from a filter's key has the filter's address and topics, but for null,
-- empty texts and lone alternatives, which read as `read_topic` says, and no first block. It has the
-- same key: what is fetched for it is kept in the entry that it is fetched for. The filter has
-- topics, each with a text, and no part of it has a separator.
pub filter_to_key-key_to_filter :
    (f : EventFilter) (t : Option Topic) (ts : List (Option Topic))
    → IsSeparable f
    → f.topics ≡ some (t ∷ ts)
    → AreTexts (t ∷ ts)
    → (key_to_filter (filter_to_key f) ≡ some (read_filter f))
      × (filter_to_key (read_filter f) ≡ filter_to_key f)
unfolding filter_to_key
filter_to_key-key_to_filter f t ts h e k = (
  key_to_filter-filter_to_key f h,
  rw (e, address-read (address_to_text f.address))
      (ap (λ l. address_to_text f.address ++ b':' ∷ join b'-' l) (texts-read (t ∷ ts) k)),
)
