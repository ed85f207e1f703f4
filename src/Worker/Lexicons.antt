-- ===== src/Worker/Lexicons.antt =====
-- apps/worker/tasks/nlp/lexicons.py: the word lists of the rule-based metrics.
use session_replica_ielt.Prelude.{List, [], ◌∷◌, map}
use session_replica_ielt.Prelude.Text.{Word, codes}

-- `FILLED_PAUSES`
abbrev pub filled_pauses : List Word
filled_pauses = map codes ("um" ∷ "umm" ∷ "uh" ∷ "uhh" ∷ "erm" ∷ "er" ∷ "hmm" ∷ "like" ∷ [])

-- `DISCOURSE_MARKERS`
abbrev pub discourse_markers : List Word
discourse_markers = map codes (
    "firstly" ∷ "secondly" ∷ "thirdly" ∷ "finally" ∷ "however" ∷ "moreover" ∷ "furthermore"
    ∷ "additionally" ∷ "therefore" ∷ "consequently" ∷ "meanwhile" ∷ "nevertheless" ∷ "nonetheless"
    ∷ "besides" ∷ "so" ∷ "because" ∷ "although" ∷ "though" ∷ "otherwise" ∷ "instead" ∷ "similarly"
    ∷ "likewise" ∷ "overall" ∷ "anyway" ∷ [])

-- `SELF_REPAIR_MARKERS`
abbrev pub self_repair_markers : List Word
self_repair_markers = map codes ("sorry" ∷ "actually" ∷ "rather" ∷ [])

-- `COLLOCATIONS_AND_IDIOMS`
abbrev pub collocations_and_idioms : List Word
collocations_and_idioms = map codes (
    "make a decision" ∷ "take a break" ∷ "pay attention" ∷ "have a look" ∷ "give it a try"
    ∷ "on the other hand" ∷ "at the end of the day" ∷ "in my opinion" ∷ "as far as i know"
    ∷ "to be honest" ∷ "keep in touch" ∷ "make sense" ∷ "take part in" ∷ "get used to"
    ∷ "look forward to" ∷ "run out of" ∷ "come up with" ∷ "figure out" ∷ "in the long run"
    ∷ "for the most part" ∷ "under the weather" ∷ "hit the books" ∷ "piece of cake"
    ∷ "break the ice" ∷ "once in a while" ∷ "on a regular basis" ∷ "in terms of"
    ∷ "as a matter of fact" ∷ "take into account" ∷ "make up my mind" ∷ [])

-- `FILLED_PAUSE_BIGRAMS`
abbrev pub filled_pause_bigrams : List (Word × Word)
filled_pause_bigrams = (codes "you", codes "know") ∷ []

-- `SELF_REPAIR_BIGRAMS`
abbrev pub self_repair_bigrams : List (Word × Word)
self_repair_bigrams = (codes "i", codes "mean") ∷ []
