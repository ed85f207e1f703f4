-- ===== src/Worker/Parse.antt =====
-- apps/worker/nlp_common.py `parse_words`: the shape of a parsed text, as the feature extraction
-- reads it. The parser itself is a parameter of the definitions that use it.
use session_replica_ielt.Prelude.{ℕ, ◌==◌, not, ◌&&◌, String, List, select}

-- The dependency labels that the code names, and any other.
pub data Dep : Type 0 where
  root conj advcl ccomp xcomp acl relcl csubj csubjpass : Dep
  nsubj nsubjpass expl auxpass other_dep : Dep

-- `pos_` and `tag_`, in the same way.
pub data Pos : Type 0 where
  verb aux noun propn other_pos : Pos

pub data Tag : Type 0 where
  vbd vbp vbz vbg vbn md other_tag : Tag

-- A token, with `head` and `right_edge` as positions in the document; a root is its own head.
pub record Token : Type 0 where
  pub i : ℕ
  pub dep : Dep
  pub head : ℕ
  pub right_edge : ℕ
  pub pos : Pos
  pub tag : Tag
  pub text : String
  pub lower : String
  pub lemma : String

abbrev pub Doc : Type 0
Doc = List Token

-- `token.children`
abbrev pub children : Doc → Token → List Token
children doc t = select (λ c. (c.head == t.i) && not (c.i == t.i)) doc
