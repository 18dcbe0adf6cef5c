-- ===== src/Common/Memo.antt =====
-- A map that keeps the answers of lookups. A lookup that finds nothing kept is under way until its
-- answer comes, and others may begin and end meanwhile.
use atproto_market.Common.{
  String, ℕ, false, ◌≡◌, refl, arith, Option, none, some, List, [], ◌∷◌, ◌++◌, ◌==◌, eq_iff, pick,
  All, All-append,
}
use atproto_market.Common.Dict.{Dict, get, set, get-set}
use atproto_market.Common.Pick.{IsPicked, pick-IsPicked}

-- `asked` are the lookups under way.
pub record Memo (Q V : Type 0) : Type 0 where
  pub kept : Dict V
  pub asked : List Q

abbrev pub empty_memo : {Q V : Type 0} → Memo Q V
empty_memo = record { kept = []; asked = [] }

-- A lookup begins, or its answer comes.
pub data Lookup (Q V : Type 0) : Type 0 where
  asks : Q → Lookup Q V
  answers : ℕ → (Q → V) → Lookup Q V

-- `name` gives the key of the map.
module _ {Q V : Type 0} (name : Q → String) where
  found : Memo Q V → Q → Option V → Memo Q V × Option V
  found m q (some v) = (m, some v)
  found m q none = (record m { asked = m.asked ++ q ∷ [] }, none)

  -- A lookup begins: it ends at once with what is kept, if something is.
  unfoldable pub ask : Memo Q V → Q → Memo Q V × Option V
  unfolding found
  ask m q = found m q (get m.kept (name q))

  keep_answer : Memo Q V → (Q → V) → Option (Q × List Q) → Memo Q V
  keep_answer m f none = m
  keep_answer m f (some (q, others)) = record { kept = set m.kept (name q) (f q); asked = others }

  -- The answer of a lookup that is under way comes, and is kept whatever is kept already.
  unfoldable pub answer : Memo Q V → ℕ → (Q → V) → Memo Q V
  unfolding keep_answer
  answer m i f = keep_answer m f (pick i m.asked)

  unfoldable pub look_up : Memo Q V → Lookup Q V → Memo Q V
  unfolding ask answer
  look_up m (asks q) = (ask m q).0
  look_up m (answers i f) = answer m i f

  unfoldable pub look_up_all : Memo Q V → List (Lookup Q V) → Memo Q V
  unfolding look_up
  look_up_all m [] = m
  look_up_all m (e ∷ es) = look_up_all (look_up m e) es

  module _ (k : String) (v : V) where
    -- It is no lookup of the key.
    abbrev pub IsOther : Q → Type 0
    IsOther q = (name q == k) ≡ false

    -- The key has its answer, and no lookup of it is under way.
    record Stays (m : Memo Q V) : Type 0 where
      kept : get m.kept k ≡ some v
      others : All IsOther m.asked

    found-Stays :
        (m : Memo Q V) (q : Q) (o : Option V)
        → get m.kept (name q) ≡ o
        → Stays m
        → Stays (found m q o).0
    unfolding found
    found-Stays m q (some w) e h = h
    found-Stays m q none e h =
        let other : IsOther q = ground (arith, e, h.kept, eq_iff (name q) k) in
        record { kept = h.kept; others = All-append IsOther m.asked (q ∷ []) h.others (other, tt) }

    keep_answer-Stays :
        (m : Memo Q V) (f : Q → V) (o : Option (Q × List Q))
        → Stays m
        → IsPicked IsOther o
        → Stays (keep_answer m f o)
    unfolding keep_answer
    keep_answer-Stays m f none h p = h
    keep_answer-Stays m f (some (q, others)) h (other, rest) = record {
      kept = ground (arith, h.kept, other, get-set m.kept (name q) k (f q));
      others = rest;
    }

    look_up_all-Stays : (m : Memo Q V) (es : List (Lookup Q V)) → Stays m → Stays (look_up_all m es)
    unfolding look_up_all ask answer
    look_up_all-Stays m [] h = h
    look_up_all-Stays m (asks q ∷ es) h =
        look_up_all-Stays (ask m q).0 es (found-Stays m q (get m.kept (name q)) refl h)
    look_up_all-Stays m (answers i f ∷ es) h =
        look_up_all-Stays (answer m i f) es
          (keep_answer-Stays m f (pick i m.asked) h (pick-IsPicked IsOther i m.asked h.others))

    keep_answer-Stays_new :
        (m : Memo Q V) (f : Q → V) (q : Q) (others : List Q)
        → name q ≡ k
        → f q ≡ v
        → All IsOther others
        → Stays (keep_answer m f (some (q, others)))
    unfolding keep_answer
    keep_answer-Stays_new m f q others named is none_else = record {
      kept = ground (arith, get-set m.kept (name q) k (f q), eq_iff (name q) k, named, is);
      others = none_else;
    }

    found_lem : (m : Memo Q V) (q : Q) (o : Option V) → o ≡ some v → found m q o ≡ (m, some v)
    unfolding found
    found_lem m q none e = absurd (ground (arith, e))
    found_lem m q (some w) e = let is : w ≡ v = cc e in rw is refl

    -- Once an answer has come and no other lookup of its key is under way, whatever is looked up and
    -- answered then, a lookup of the key ends at once with that answer.
    pub ask_again :
        (m : Memo Q V) (i : ℕ) (f : Q → V) (q : Q) (others : List Q) (es : List (Lookup Q V))
        → pick i m.asked ≡ some (q, others)
        → name q ≡ k
        → f q ≡ v
        → All IsOther others
        → ask (look_up_all (answer m i f) es) q ≡ (look_up_all (answer m i f) es, some v)
    unfolding ask answer
    ask_again m i f q others es there named is none_else =
        let first = keep_answer-Stays_new m f q others named is none_else in
        let stays : Stays (look_up_all (answer m i f) es) =
          look_up_all-Stays (answer m i f) es (rw there first) in
        found_lem (look_up_all (answer m i f) es) q
          (get (look_up_all (answer m i f) es).kept (name q)) (rw named stays.kept)
