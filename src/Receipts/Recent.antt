-- ===== src/Receipts/Recent.antt =====
-- The remembered receipts: never more than the capacity, each once, and the most recent ones.
use atproto_market.Common.{
  String, ℕ, ◌+◌, ◌≤◌, ◌<◌, true, false, ◌≡◌, refl, ap, ◌∙◌, arith, List, [], ◌∷◌, ◌++◌, ltb,
  length, ◌==◌, eq_iff, eq_refl, is_some, length-append, Bool-cases, inl, inr,
}
use atproto_market.Common.Dict.{
  Dict, get, set, delete, HasUniqueKeys, Fresh-delete_self, set_of_Fresh, set-HasUniqueKeys,
  delete-HasUniqueKeys, length-delete-le,
}
use atproto_market.Receipts.{
  TerminatedReceipt, TerminatedReceipts, new_receipts, is_known, evict, add, add_all,
}

-- At most `capacity` receipts, none twice.
pub record IsBounded (r : TerminatedReceipts) : Type 0 where
  pub few : length r.entries ≤ r.capacity
  pub unique : HasUniqueKeys r.entries

length-evict : (n : ℕ) (m : Dict TerminatedReceipt) → length (evict n m) ≤ n
unfolding evict
length-evict n [] = omega arith
length-evict n (e ∷ m) = ground (arith, length-evict n m)

evict-HasUniqueKeys :
    (n : ℕ) (m : Dict TerminatedReceipt) → HasUniqueKeys m → HasUniqueKeys (evict n m)
unfolding evict
evict-HasUniqueKeys n [] h = h
evict-HasUniqueKeys n ((k, v) ∷ m) h = ground (arith, h, evict-HasUniqueKeys n m h.1)

add-IsBounded :
    (r : TerminatedReceipts) (uri : String) (e : TerminatedReceipt)
    → IsBounded r
    → IsBounded (add r uri e)
unfolding add
add-IsBounded r uri e b = record {
  few = length-evict r.capacity (set (delete r.entries uri) uri e);
  unique = evict-HasUniqueKeys r.capacity (set (delete r.entries uri) uri e) (
      set-HasUniqueKeys (delete r.entries uri) uri e (delete-HasUniqueKeys r.entries uri b.unique));
}

add_all_from-IsBounded :
    (r : TerminatedReceipts) (es : List (String × TerminatedReceipt))
    → IsBounded r
    → IsBounded (add_all r es)
unfolding add_all
add_all_from-IsBounded r [] b = b
add_all_from-IsBounded r ((uri, e) ∷ es) b =
    add_all_from-IsBounded (add r uri e) es (add-IsBounded r uri e b)

-- Whatever is added, a bidder remembers at most `capacity` terminated receipts, and none twice.
pub add_all-IsBounded :
    (capacity : ℕ) (es : List (String × TerminatedReceipt))
    → IsBounded (add_all (new_receipts capacity) es)
unfolding new_receipts
add_all-IsBounded capacity es =
    add_all_from-IsBounded (new_receipts capacity) es (record { few = omega arith; unique = tt })

-- The receipt is remembered, with at most `n` receipts behind it.
pub record IsWithin (uri : String) (n : ℕ) (m : Dict TerminatedReceipt) : Type 0 where
  pub before : Dict TerminatedReceipt
  pub entry : TerminatedReceipt
  pub behind : Dict TerminatedReceipt
  pub place : m ≡ before ++ (uri, entry) ∷ behind
  pub few : length behind ≤ n

evict_keeps :
    (capacity : ℕ) (uri : String) (e : TerminatedReceipt) (before behind : Dict TerminatedReceipt)
    → length behind < capacity
    → (b : Dict TerminatedReceipt) × (evict capacity (before ++ (uri, e) ∷ behind)
        ≡ b ++ (uri, e) ∷ behind)
unfolding evict
evict_keeps capacity uri e [] behind h = ([], ground (arith, h))
evict_keeps capacity uri e (x ∷ before) behind h =
    let (b, rest) = evict_keeps capacity uri e before behind h in
    elim (Bool-cases (ltb capacity (length ((x ∷ before) ++ (uri, e) ∷ behind)))) [
      | inl full ↦ (b, (rw full rest))
      | inr room ↦ (x ∷ before, (rw room refl))
    ]

delete-append :
    (a b : Dict TerminatedReceipt) (j : String) → delete (a ++ b) j ≡ delete a j ++ delete b j
unfolding delete
delete-append [] b j = refl
delete-append ((i, v) ∷ a) b j = ground (arith, delete-append a b j)

append_assoc : (a b c : Dict TerminatedReceipt) → (a ++ b) ++ c ≡ a ++ (b ++ c)
append_assoc [] b c = refl
append_assoc (x ∷ a) b c = ap (λ xs. x ∷ xs) (append_assoc a b c)

-- What is added stands last, before anything is evicted.
set_last :
    (m : Dict TerminatedReceipt) (j : String) (e : TerminatedReceipt)
    → set (delete m j) j e ≡ delete m j ++ (j, e) ∷ []
set_last m j e = set_of_Fresh (delete m j) j e (Fresh-delete_self m j)

module _ (r : TerminatedReceipts) (uri j : String) (e : TerminatedReceipt) where
  added-IsWithin : (n : ℕ) → 0 < r.capacity → j ≡ uri → IsWithin uri n (add r j e).entries
  unfolding add
  added-IsWithin n room same =
      let (b, kept) = evict_keeps r.capacity j e (delete r.entries j) [] room in
      record {
        before = b;
        entry = e;
        behind = [];
        place =
            ap (evict r.capacity) (set_last r.entries j e) ∙ kept ∙ ap (λ k. b ++ (k, e) ∷ []) same;
        few = omega arith;
      }

  shifted-IsWithin :
      (n : ℕ)
      → n + 1 < r.capacity
      → (j == uri) ≡ false
      → IsWithin uri n r.entries
      → IsWithin uri (n + 1) (add r j e).entries
  unfolding add
  shifted-IsWithin n room other w =
      let behind = delete w.behind j ++ (j, e) ∷ [] in
      let short : length behind ≤ n + 1 = omega (
        arith,
        length-append (delete w.behind j) ((j, e) ∷ []),
        length-delete-le w.behind j,
        w.few,
      ) in
      let head : delete ((uri, w.entry) ∷ w.behind) j ≡ (uri, w.entry) ∷ delete w.behind j =
        unfold delete in ground (arith, other, eq_iff uri j, eq_iff j uri) in
      let (b, kept) =
        evict_keeps r.capacity uri w.entry (delete w.before j) behind
          (omega (arith, short, room)) in
      let left : delete r.entries j ≡ delete w.before j ++ (uri, w.entry) ∷ delete w.behind j =
        ap (λ m. delete m j) w.place
        ∙ delete-append w.before ((uri, w.entry) ∷ w.behind) j
        ∙ ap (λ m. delete w.before j ++ m) head in
      record {
        before = b;
        entry = w.entry;
        behind = behind;
        place =
            ap (evict r.capacity) (
              set_last r.entries j e
              ∙ ap (λ m. m ++ (j, e) ∷ []) left
              ∙ append_assoc (delete w.before j) ((uri, w.entry) ∷ delete w.behind j) ((j, e) ∷ []))
            ∙ kept;
        few = short;
      }

  add-IsWithin :
      (n : ℕ)
      → n + 1 < r.capacity
      → IsWithin uri n r.entries
      → IsWithin uri (n + 1) (add r j e).entries
  add-IsWithin n room w = elim (Bool-cases (j == uri)) [
    | inl same ↦ added-IsWithin (n + 1) (omega (arith, room)) ((eq_iff j uri).0 same)
    | inr other ↦ shifted-IsWithin n room other w
  ]

add_all-IsWithin :
    (r : TerminatedReceipts) (uri : String) (n : ℕ) (es : List (String × TerminatedReceipt))
    → n + length es < r.capacity
    → IsWithin uri n r.entries
    → IsWithin uri (n + length es) (add_all r es).entries
unfolding add_all
add_all-IsWithin r uri n [] room w = record {
  before = w.before;
  entry = w.entry;
  behind = w.behind;
  place = w.place;
  few = omega (arith, w.few);
}
add_all-IsWithin r uri n ((j, e) ∷ es) room w =
    let next = add-IsWithin r uri j e n (omega (arith, room)) w in
    let rest =
      add_all-IsWithin (add r j e) uri (n + 1) es (unfold add in omega (arith, room)) next in
    record {
      before = rest.before;
      entry = rest.entry;
      behind = rest.behind;
      place = rest.place;
      few = omega (arith, rest.few);
    }

get_within :
    (before behind : Dict TerminatedReceipt) (uri : String) (e : TerminatedReceipt)
    → is_some (get (before ++ (uri, e) ∷ behind) uri) ≡ true
unfolding get
get_within [] behind uri e = ground (arith, eq_refl uri)
get_within ((k, v) ∷ before) behind uri e = ground (arith, get_within before behind uri e)

-- A receipt that is added is remembered while fewer than `capacity` further receipts are added.
pub recent-is_known :
    (r : TerminatedReceipts) (uri : String) (e : TerminatedReceipt)
    (es : List (String × TerminatedReceipt))
    → length es < r.capacity
    → is_known (add_all (add r uri e) es) uri ≡ true
unfolding is_known
recent-is_known r uri e es room =
    let w =
      add_all-IsWithin (add r uri e) uri 0 es (unfold add in omega (arith, room))
        (added-IsWithin r uri uri e 0 (omega (arith, room)) refl) in
    rw w.place (get_within w.before w.behind uri w.entry)
