-- ===== src/Webapp/Logs/Keys.antt =====
-- packages/nouns-webapp/src/utils/logParsing.ts: the key of a filter of events, and the filter of a
-- key, on texts as lists of character codes.
pub mod Separators
pub mod Reading
use composable_nouns_monorep.Common.{ℕ, Option, none, some, List, [], ◌∷◌, ◌++◌, map}
use composable_nouns_monorep.Sdk.Hex.{Text}
use composable_nouns_monorep.Webapp.Proposals.Details.{split}

-- A topic, or alternatives for it.
pub data Topic : Type 0 where
  one : Text → Topic
  any_of : List Text → Topic

-- A topic that is null is none.
pub record EventFilter : Type 0 where
  pub address : Option Text
  pub topics : Option (List (Option Topic))
  pub from_block : Option ℕ

-- `texts.join(d)`.
abbrev pub join : ℕ → List Text → Text
join d [] = []
join d (t ∷ []) = t
join d (t ∷ u ∷ ts) = t ++ d ∷ join d (u ∷ ts)

-- An empty text counts as false, as null does.
abbrev pub topic_to_text : Option Topic → Text
topic_to_text none = 0 ∷ []
topic_to_text (some (one [])) = 0 ∷ []
topic_to_text (some (one (c ∷ cs))) = c ∷ cs
topic_to_text (some (any_of ts)) = join b';' ts

abbrev pub address_to_text : Option Text → Text
address_to_text none = []
address_to_text (some a) = a

abbrev pub topics_to_text : Option (List (Option Topic)) → Text
topics_to_text none = []
topics_to_text (some ts) = join b'-' (map topic_to_text ts)

unfoldable pub filter_to_key : EventFilter → Text
filter_to_key f = address_to_text f.address ++ b':' ∷ topics_to_text f.topics

abbrev pub topic_of_parts : List Text → Topic
topic_of_parts [] = any_of []
topic_of_parts (p ∷ []) = one p
topic_of_parts (p ∷ q ∷ parts) = any_of (p ∷ q ∷ parts)

abbrev pub address_of : Text → Option Text
address_of [] = none
address_of (c ∷ cs) = some (c ∷ cs)

abbrev pub filter_of_pieces : List Text → Option EventFilter
filter_of_pieces [] = none
filter_of_pieces (address ∷ []) = none
filter_of_pieces (address ∷ topics ∷ pieces) = some (record {
  address = address_of address;
  topics = some (map (λ t. some (topic_of_parts (split b';' t))) (split b'-' topics));
  from_block = none;
})

-- `none`: the key has no colon, and the function throws.
unfoldable pub key_to_filter : Text → Option EventFilter
key_to_filter key = filter_of_pieces (split b':' key)
