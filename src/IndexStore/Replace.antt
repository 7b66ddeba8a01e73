-- ===== src/IndexStore/Replace.antt =====
-- exec_index_store.py: what the table holds for a run behind `upsert_chunks` and `delete_run`.
use aw_app_agents_platform_r.Prelude.{
  ℕ, ◌≡◌, refl, sym, ap, ap₂, ◌∙◌, subst, Bool, true, false, ◌&&◌, not, Option, none, some, List,
  [], ◌∷◌, if◌then◌else◌, ◌==◌, ==→eq, ==_refl, length, All, Bool-cases, inl, inr, arith,
}
use aw_app_agents_platform_r.Prelude.Texts.{Text, text_eq, text_eq_refl, text_eq-other, text_eq→eq}
use aw_app_agents_platform_r.IndexStore.{
  SentChunk, Item, StoredRow, chunk_key, insert_row, row_for, insert_all, has_seq, delete_absent,
  delete_rows, delete_run,
}
use aw_app_agents_platform_r.IndexStore.Keys.{chunk_key-injective}

-- The table as it is meant: for each run and number, the content of the chunk, if there is one.
abbrev pub Contents : Type 0
Contents = Text → ℕ → Option Text

abbrev pub find_key : Text → List StoredRow → Option Text
find_key k [] = none
find_key k (x ∷ rows) = if text_eq x.chunk_id k then some x.row_content else find_key k rows

abbrev pub contents : List StoredRow → Contents
contents rows r s = find_key (chunk_key r s) rows

-- The content that a call sends last for a number.
abbrev pub sent_by : Option ℕ → Option Text → ℕ → Option Text
sent_by none content s = none
sent_by (some seq) content s = if seq == s then content else none

abbrev pub or_else : Option Text → Option Text → Option Text
or_else none b = b
or_else (some a) b = some a

abbrev pub sent : List SentChunk → ℕ → Option Text
sent [] s = none
sent (c ∷ chunks) s = or_else (sent chunks s) (sent_by c.seq c.content s)

-- A full replacement: the run has what was sent, and no other run is touched. A call that sends nothing
-- changes nothing.
abbrev pub replaced : Text → List SentChunk → Contents → Contents
replaced r [] t r2 s = t r2 s
replaced r (c ∷ chunks) t r2 s = if text_eq r2 r then sent (c ∷ chunks) s else t r2 s

-- Every row stands under its own key.
abbrev pub Keyed : List StoredRow → Type 0
Keyed rows = All (λ x. x.chunk_id ≡ chunk_key x.run_id x.row_seq) rows

-- The same of items.
abbrev pub sent_items : List Item → ℕ → Option Text
sent_items [] s = none
sent_items (i ∷ items) s =
    or_else (sent_items items s) (if i.item_seq == s then some i.item_content else none)

text_eq-key :
    (r1 r2 : Text) (s1 s2 : ℕ)
    → text_eq (chunk_key r1 s1) (chunk_key r2 s2) ≡ (text_eq r2 r1 && (s1 == s2))
text_eq-key r1 r2 s1 s2 = elim (Bool-cases (text_eq (chunk_key r1 s1) (chunk_key r2 s2))) [
  | inl same ↦
      let (a, b) =
        chunk_key-injective r1 r2 s1 s2 (text_eq→eq (chunk_key r1 s1) (chunk_key r2 s2) same) in
      rw (same, a, b, text_eq_refl r2, ==_refl s2) refl
  | inr other ↦ elim (Bool-cases (text_eq r2 r1)) [
    | inl a ↦ elim (Bool-cases (s1 == s2)) [
      | inl b ↦ absurd (cc (differs (sym (text_eq→eq r2 r1 a)) (==→eq s1 s2 b) other))
      | inr b ↦ rw (other, a, b) refl
    ]
    | inr a ↦ rw (other, a) refl
  ]
]
  where
    differs : r1 ≡ r2 → s1 ≡ s2 → text_eq (chunk_key r1 s1) (chunk_key r2 s2) ≡ false → true ≡ false
    differs a b h =
        sym (text_eq_refl (chunk_key r1 s1))
        ∙ (ap₂ (λ r s. text_eq (chunk_key r1 s1) (chunk_key r s)) a b ∙ h)

find_key-insert_row :
    (k : Text) (row : StoredRow) (rows : List StoredRow)
    → find_key k (insert_row row rows)
      ≡ (if text_eq row.chunk_id k then some row.row_content else find_key k rows)
unfolding insert_row
find_key-insert_row k row [] = refl
find_key-insert_row k row (x ∷ rows) = elim (Bool-cases (text_eq x.chunk_id row.chunk_id)) [
  | inl same ↦ rw same (
      rw (text_eq→eq x.chunk_id row.chunk_id same) (
        absorbed (text_eq row.chunk_id k) (some row.row_content) (some x.row_content)
          (find_key k rows)))
  | inr other ↦ elim (Bool-cases (text_eq x.chunk_id k)) [
    | inl here ↦
        rw
          (
            other,
            here,
            subst (λ u. text_eq row.chunk_id u ≡ false) (text_eq→eq x.chunk_id k here)
                (text_eq-other x.chunk_id row.chunk_id other),
          )
          refl
    | inr there ↦ rw (other, there) (find_key-insert_row k row rows)
  ]
]
  where
    absorbed :
        (b : Bool) (u v w : Option Text)
        → (if b then u else w) ≡ (if b then u else (if b then v else w))
    absorbed true u v w = refl
    absorbed false u v w = refl

unchanged : (b : Bool) (o : Option Text) → o ≡ (if b then o else o)
unchanged true o = refl
unchanged false o = refl

-- Behind the insertions a number of the run has what was sent last for it, or what it had.
pub find_key-insert_all :
    (r : Text) (now : ℕ) (items : List Item) (vectors : List Text) (rows : List StoredRow)
    (r2 : Text) (s : ℕ)
    → length vectors ≡ length items
    → find_key (chunk_key r2 s) (insert_all r now items vectors rows) ≡ (
        if text_eq r2 r
        then or_else (sent_items items s) (find_key (chunk_key r2 s) rows)
        else find_key (chunk_key r2 s) rows)
unfolding insert_all
find_key-insert_all r now [] vectors rows r2 s e =
    unchanged (text_eq r2 r) (find_key (chunk_key r2 s) rows)
find_key-insert_all r now (i ∷ items) [] rows r2 s e = absurd (omega (arith, e))
find_key-insert_all r now (i ∷ items) (v ∷ vectors) rows r2 s e =
    let row = row_for r now i v in
    find_key-insert_all r now items vectors (insert_row row rows) r2 s (omega (arith, e))
    ∙ (ap (λ f. if text_eq r2 r then or_else (sent_items items s) f else f)
          (find_key-insert_row (chunk_key r2 s) row rows
            ∙ ap (λ b. if b then some i.item_content else find_key (chunk_key r2 s) rows)
                (text_eq-key r r2 i.item_seq s))
        ∙ merged (text_eq r2 r) (i.item_seq == s) (sent_items items s) i.item_content
            (find_key (chunk_key r2 s) rows))
  where
    merged :
        (same here : Bool) (later : Option Text) (own : Text) (before : Option Text)
        → (if same
            then or_else later (if same && here then some own else before)
            else (if same && here then some own else before))
          ≡ (if same
              then or_else (or_else later (if here then some own else none)) before
              else before)
    merged false here later own before = refl
    merged true true (some t) own before = refl
    merged true true none own before = refl
    merged true false (some t) own before = refl
    merged true false none own before = refl

-- Behind the deletion a number of the run that was not sent has nothing.
pub find_key-delete_absent :
    (r : Text) (items : List Item) (rows : List StoredRow) (r2 : Text) (s : ℕ)
    → Keyed rows
    → find_key (chunk_key r2 s) (delete_absent r items rows)
      ≡ (if text_eq r2 r && not (has_seq items s) then none else find_key (chunk_key r2 s) rows)
unfolding delete_absent
find_key-delete_absent r items [] r2 s h = unchanged (text_eq r2 r && not (has_seq items s)) none
find_key-delete_absent r items (x ∷ rows) r2 s h =
    elim (Bool-cases (text_eq x.run_id r && not (has_seq items x.row_seq))) [
      | inl gone ↦ elim (Bool-cases (text_eq x.chunk_id (chunk_key r2 s))) [
        | inl here ↦
            let (a, b) = own here in
            rw gone (
              find_key-delete_absent r items rows r2 s h.1
              ∙ (ap (λ c. if c then none else find_key (chunk_key r2 s) rows) (same_cut a b gone)
                  ∙ ap (λ c. if c then none else find_key (chunk_key r2 s) (x ∷ rows))
                      (sym (same_cut a b gone))))
        | inr other ↦ rw (gone, other) (find_key-delete_absent r items rows r2 s h.1)
      ]
      | inr stays ↦ elim (Bool-cases (text_eq x.chunk_id (chunk_key r2 s))) [
        | inl here ↦ let (a, b) = own here in rw (stays, here, same_cut a b stays) refl
        | inr other ↦ rw (stays, other) (find_key-delete_absent r items rows r2 s h.1)
      ]
    ]
  where
    own : text_eq x.chunk_id (chunk_key r2 s) ≡ true → (x.run_id ≡ r2) × (x.row_seq ≡ s)
    own e =
        chunk_key-injective x.run_id r2 x.row_seq s
          (sym h.0 ∙ text_eq→eq x.chunk_id (chunk_key r2 s) e)

    same_cut :
        {b : Bool}
        → x.run_id ≡ r2
        → x.row_seq ≡ s
        → (text_eq x.run_id r && not (has_seq items x.row_seq)) ≡ b
        → (text_eq r2 r && not (has_seq items s)) ≡ b
    same_cut e f g = ap₂ (λ u v. text_eq u r && not (has_seq items v)) (sym e) (sym f) ∙ g

insert_row-Keyed :
    (row : StoredRow) (rows : List StoredRow)
    → row.chunk_id ≡ chunk_key row.run_id row.row_seq
    → Keyed rows
    → Keyed (insert_row row rows)
unfolding insert_row
insert_row-Keyed row [] e h = (e, tt)
insert_row-Keyed row (x ∷ rows) e h = elim (Bool-cases (text_eq x.chunk_id row.chunk_id)) [
  | inl same ↦ rw same (h.0, h.1)
  | inr other ↦ rw other (h.0, insert_row-Keyed row rows e h.1)
]

pub insert_all-Keyed :
    (r : Text) (now : ℕ) (items : List Item) (vectors : List Text) (rows : List StoredRow)
    → Keyed rows
    → Keyed (insert_all r now items vectors rows)
unfolding insert_all
insert_all-Keyed r now [] vectors rows h = h
insert_all-Keyed r now (i ∷ items) [] rows h = h
insert_all-Keyed r now (i ∷ items) (v ∷ vectors) rows h =
    insert_all-Keyed r now items vectors (insert_row (row_for r now i v) rows)
      (insert_row-Keyed (row_for r now i v) rows refl h)

pub delete_absent-Keyed :
    (r : Text) (items : List Item) (rows : List StoredRow)
    → Keyed rows
    → Keyed (delete_absent r items rows)
unfolding delete_absent
delete_absent-Keyed r items [] h = tt
delete_absent-Keyed r items (x ∷ rows) h =
    elim (Bool-cases (text_eq x.run_id r && not (has_seq items x.row_seq))) [
      | inl gone ↦ rw gone (delete_absent-Keyed r items rows h.1)
      | inr stays ↦ rw stays (h.0, delete_absent-Keyed r items rows h.1)
    ]

-- A run that was deleted has nothing, and the others have what they had.
pub find_key-delete_rows :
    (r : Text) (rows : List StoredRow) (r2 : Text) (s : ℕ)
    → Keyed rows
    → contents (delete_run r rows).0 r2 s ≡ (if text_eq r2 r then none else contents rows r2 s)
unfolding delete_run delete_rows
find_key-delete_rows r [] r2 s h = unchanged (text_eq r2 r) none
find_key-delete_rows r (x ∷ rows) r2 s h = elim (Bool-cases (text_eq x.run_id r)) [
  | inl gone ↦ elim (Bool-cases (text_eq x.chunk_id (chunk_key r2 s))) [
    | inl here ↦ rw gone (
        find_key-delete_rows r rows r2 s h.1
        ∙ rw (subst (λ u. text_eq u r ≡ true) (own here) gone) refl)
    | inr other ↦ rw (gone, other) (find_key-delete_rows r rows r2 s h.1)
  ]
  | inr stays ↦ elim (Bool-cases (text_eq x.chunk_id (chunk_key r2 s))) [
    | inl here ↦ rw (stays, here, subst (λ u. text_eq u r ≡ false) (own here) stays) refl
    | inr other ↦ rw (stays, other) (find_key-delete_rows r rows r2 s h.1)
  ]
]
  where
    own : text_eq x.chunk_id (chunk_key r2 s) ≡ true → x.run_id ≡ r2
    own e =
        (chunk_key-injective x.run_id r2 x.row_seq s
          (sym h.0 ∙ text_eq→eq x.chunk_id (chunk_key r2 s) e)).0
