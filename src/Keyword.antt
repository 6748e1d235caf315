-- ===== src/Keyword.antt =====
-- shirita-core/src/keyword.rs: an index of keywords. What stands outside is a parameter: the numbers of
-- the patterns that the automaton finds in a text, lower case, and the order in which a set of ids is
-- listed.
pub mod Laws
use shirita.Prelude.{ℕ, zero, suc, List, [], ◌∷◌, ◌++◌, is_empty, if◌then◌else◌}
use shirita.Text.{Text, trim}

pub record Automaton : Type 0 where
  pub find_iter : List Text → Text → List ℕ
  pub to_lowercase : Text → Text
  pub set_order : List Text → List Text

-- The patterns with their owners, in the order of their numbers.
pub record KeywordIndex : Type 0 where
  pub patterns : List Text
  pub owners : List Text

abbrev pub Keywords : Type 0
Keywords = List (Text × List Text)

abbrev push_key : Text → Text → KeywordIndex → KeywordIndex
push_key id k index = record { patterns = k ∷ index.patterns; owners = id ∷ index.owners }

unfoldable pub add_key : Text → Text → KeywordIndex → KeywordIndex
add_key id k index = if is_empty k then index else push_key id k index

unfoldable pub add_keys : Automaton → Text → List Text → KeywordIndex → KeywordIndex
add_keys ac id [] index = index
add_keys ac id (k ∷ ks) index = add_key id (ac.to_lowercase (trim k)) (add_keys ac id ks index)

-- The loop over the entries, from its end, so that the patterns stand in the source's order.
unfoldable pub build : Automaton → Keywords → KeywordIndex
build ac [] = record { patterns = []; owners = [] }
build ac ((id, keys) ∷ rest) = add_keys ac id keys (build ac rest)

-- `owners[i]`, which the automaton asks for with the number of a pattern only.
unfoldable pub owner_at : ℕ → List Text → List Text
owner_at i [] = []
owner_at zero (o ∷ os) = o ∷ []
owner_at (suc i) (o ∷ os) = owner_at i os

unfoldable pub owners_of : List Text → List ℕ → List Text
owners_of owners [] = []
owners_of owners (i ∷ is) = owner_at i owners ++ owners_of owners is

-- The set that is returned, as the list of its ids in the order that it is gone through in. An id that
-- is found twice may stand in it twice, which `insert` does not see.
unfoldable pub scan : Automaton → KeywordIndex → Text → List Text
scan ac index body =
    if is_empty index.patterns
    then []
    else ac.set_order (owners_of index.owners (ac.find_iter index.patterns (ac.to_lowercase body)))
