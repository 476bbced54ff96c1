-- ===== src/Tests/HotContextTests.antt =====
-- The hot context on concrete updates.
use post_cortex.Base.{ℕ, ◌≡◌, false, none, List, [], ◌∷◌, get_elem?, arith}
use post_cortex.Base.Keys.{nat_eq}
use post_cortex.ConcurrentMap.Assoc.{assoc_maps}
use post_cortex.Core.Update.{ContextUpdate, UpdateType}
use post_cortex.Session.HotContext.{get_all, get_recent, back, len, from_updates}
use post_cortex.Session.HotContext.Reads.{from_updates_reads}

abbrev pub update : ℕ → ContextUpdate ℕ
update i = record {
  id = i;
  timestamp = i;
  update_type = UpdateType.decision_made;
  content = record {
    title = "t";
    description = "d";
    details = [];
    examples = [];
    implications = [];
  };
  related_code = none;
  parent_update = none;
  user_marked_important = false;
  creates_entities = [];
  creates_relationships = [];
  references_entities = [];
  typed_entities = [];
  author = none;
  derived_from = [];
  meta = record { valid_from = none; supersedes = []; confidence = none; retired_at = none };
}

abbrev three : List (ContextUpdate ℕ)
three = update 1 ∷ update 2 ∷ update 3 ∷ []

from_updates_reads_example :
    (get_all (from_updates assoc_maps ℕ three 2) ≡ update 2 ∷ update 3 ∷ [])
    × (get_recent (from_updates assoc_maps ℕ three 2) 1 ≡ update 3 ∷ [])
    × (back (from_updates assoc_maps ℕ three 2) ≡ get_elem? three 2)
    × (len (from_updates assoc_maps ℕ three 2) ≡ 2)
from_updates_reads_example = from_updates_reads assoc_maps ℕ three 2 1 (omega arith)
