-- ===== src/Retention/Enforced.antt =====
-- Which files EnforceRetention (db.go) leaves.
use litefs.Prelude.{
  ℕ, ◌<◌, ◌≤◌, arith, Bool, true, false, not, ◌≡◌, refl, sym, ap, subst, ◌∙◌, ◌↔◌, ◌⊎◌, inl, inr,
  List, [], ◌∷◌, ◌==◌, ltb, if◌then◌else◌, Bool-cases, ==_iff, ==_ne,
}
use litefs.Retention.{
  Entry, filter, read_ltx_dir, but_last, remove, delete_before, enforce_retention,
}

abbrev pub Has : List Entry → Entry → Type 0
Has [] e = ⊥
Has (x ∷ xs) e = (e ≡ x) ⊎ Has xs e

-- os.ReadDir: "sorted by filename"
abbrev pub IsSorted : List Entry → Type 0
IsSorted [] = Unit
IsSorted (x ∷ xs) = ((e : Entry) → Has xs e → x.name < e.name) × IsSorted xs

filter-keeps :
    (p : Entry → Bool) (xs : List Entry) (e : Entry) → Has xs e → p e ≡ true → Has (filter p xs) e
filter-keeps p [] e h t = absurd h
filter-keeps p (x ∷ xs) e (inl q) t =
    subst (λ b. Has (if b then x ∷ filter p xs else filter p xs) e) (sym t ∙ ap p q) (inl q)
filter-keeps p (x ∷ xs) e (inr h) t = elim (Bool-cases (p x)) [
  | inl y ↦
      subst (λ b. Has (if b then x ∷ filter p xs else filter p xs) e) (sym y)
        (inr (filter-keeps p xs e h t))
  | inr n ↦
      subst (λ b. Has (if b then x ∷ filter p xs else filter p xs) e) (sym n)
        (filter-keeps p xs e h t)
]

under :
    (p : Entry → Bool) (x : Entry) (xs : List Entry) (e : Entry)
    → p x ≡ true
    → Has (filter p xs) e
    → Has (filter p (x ∷ xs)) e
under p x xs e y h = subst (λ b. Has (if b then x ∷ filter p xs else filter p xs) e) (sym y) (inr h)

filter-Has :
    (p : Entry → Bool) (xs : List Entry) (e : Entry) → Has (filter p xs) e → Has xs e × (p e ≡ true)
filter-Has p [] e h = absurd h
filter-Has p (x ∷ xs) e h = elim (Bool-cases (p x)) [
  | inl y ↦ elim (subst (λ b. Has (if b then x ∷ filter p xs else filter p xs) e) y h) [
    | inl q ↦ (inl q, ap p q ∙ y)
    | inr h' ↦ let r = filter-Has p xs e h' in (inr r.0, r.1)
  ]
  | inr n ↦
      let r =
        filter-Has p xs e (subst (λ b. Has (if b then x ∷ filter p xs else filter p xs) e) n h) in
      (inr r.0, r.1)
]

filter-IsSorted : (p : Entry → Bool) (xs : List Entry) → IsSorted xs → IsSorted (filter p xs)
filter-IsSorted p [] s = tt
filter-IsSorted p (x ∷ xs) s = elim (Bool-cases (p x)) [
  | inl y ↦
      subst (λ b. IsSorted (if b then x ∷ filter p xs else filter p xs)) (sym y)
        (λ e h. s.0 e (filter-Has p xs e h).0, filter-IsSorted p xs s.1)
  | inr n ↦
      subst (λ b. IsSorted (if b then x ∷ filter p xs else filter p xs)) (sym n)
        (filter-IsSorted p xs s.1)
]

IsSorted-distinct :
    (xs : List Entry) → IsSorted xs → (a b : Entry) → Has xs a → Has xs b → a.name ≡ b.name → a ≡ b
IsSorted-distinct [] s a b h k n = absurd h
IsSorted-distinct (x ∷ xs) s a b (inl q) (inl r) n = q ∙ sym r
IsSorted-distinct (x ∷ xs) s a b (inl q) (inr k) n =
    absurd (omega (arith, n, ap (λ e. e.name) q, s.0 b k))
IsSorted-distinct (x ∷ xs) s a b (inr h) (inl r) n =
    absurd (omega (arith, n, ap (λ e. e.name) r, s.0 a h))
IsSorted-distinct (x ∷ xs) s a b (inr h) (inr k) n = IsSorted-distinct xs s.1 a b h k n

-- A file but the last has one after it.
but_last-Has :
    (xs : List Entry) (e : Entry)
    → IsSorted xs
    → Has (but_last xs) e
    → Has xs e × ((y : Entry) × Has xs y × (e.name < y.name))
but_last-Has [] e s h = absurd h
but_last-Has (a ∷ []) e s h = absurd h
but_last-Has (a ∷ x ∷ xs) e s (inl q) =
    (inl q, (x, inr (inl refl), subst (λ e. e.name < x.name) (sym q) (s.0 x (inl refl))))
but_last-Has (a ∷ x ∷ xs) e s (inr h) =
    let r = but_last-Has (x ∷ xs) e s.1 h in (inr r.0, (r.1.0, inr r.1.1, r.1.2))

-- A file that is not among those but the last is the last.
but_last-cases :
    (xs : List Entry) (e : Entry)
    → IsSorted xs
    → Has xs e
    → Has (but_last xs) e ⊎ ((y : Entry) → Has xs y → y.name ≤ e.name)
but_last-cases [] e s h = absurd h
but_last-cases (a ∷ []) e s (inl q) = inr (λ y k. elim k [
  | inl r ↦ omega (arith, ap (λ e. e.name) q, ap (λ e. e.name) r)
  | inr z ↦ absurd z
])
but_last-cases (a ∷ []) e s (inr h) = absurd h
but_last-cases (a ∷ x ∷ xs) e s (inl q) = inl (inl q)
but_last-cases (a ∷ x ∷ xs) e s (inr h) = elim (but_last-cases (x ∷ xs) e s.1 h) [
  | inl k ↦ inl (inr k)
  | inr m ↦
      inr (λ y k. elim k [ inl r ↦ omega (arith, ap (λ e. e.name) r, s.0 e h) | inr k' ↦ m y k' ])
]

-- No file of the list with the name of `e` is due.
abbrev NotDue : ℕ → List Entry → Entry → Type 0
NotDue min_time es e = (x : Entry) → Has es x → x.name ≡ e.name → min_time < x.mod_time

abbrev shown : ℕ → Entry → List Entry → List Entry
shown t x dir = if ltb t x.mod_time then dir else remove x dir

shown-Has :
    (t : ℕ) (x : Entry) (dir : List Entry) (e : Entry)
    → Has (shown t x dir) e
    → Has dir e × (x.name ≡ e.name → t < x.mod_time)
shown-Has t x dir e h = elim (Bool-cases (ltb t x.mod_time)) [
  | inl y ↦ (subst (λ b. Has (if b then dir else remove x dir) e) y h, λ _. ground (arith, y))
  | inr n ↦
      let r =
        filter-Has (λ x'. not (x'.name == x.name)) dir e
          (subst (λ b. Has (if b then dir else remove x dir) e) n h) in
      (r.0, λ q. absurd (cc (r.1, (==_iff e.name x.name).1 (sym q))))
]

shown-keeps :
    (t : ℕ) (x : Entry) (dir : List Entry) (e : Entry)
    → Has dir e
    → (x.name ≡ e.name → t < x.mod_time)
    → Has (shown t x dir) e
shown-keeps t x dir e h c = elim (Bool-cases (ltb t x.mod_time)) [
  | inl y ↦ subst (λ b. Has (if b then dir else remove x dir) e) (sym y) h
  | inr n ↦
      subst (λ b. Has (if b then dir else remove x dir) e) (sym n)
        (filter-keeps (λ x'. not (x'.name == x.name)) dir e h
          (ap not (==_ne e.name x.name (λ q. let l = c (sym q) in absurd (ground (arith, n, l))))))
]

delete_before-Has :
    (t : ℕ) (es dir : List Entry) (e : Entry)
    → Has (delete_before t es dir) e
    → Has dir e × NotDue t es e
delete_before-Has t [] dir e h = (h, λ x z. absurd z)
delete_before-Has t (x ∷ es) dir e h =
    let r = delete_before-Has t es (shown t x dir) e h in
    let f = shown-Has t x dir e r.0 in
    (
      f.0,
      λ x' k n. elim k [
        | inl q ↦ subst (λ x. t < x.mod_time) (sym q) (f.1 (ap (λ x. x.name) (sym q) ∙ n))
        | inr k' ↦ r.1 x' k' n
      ],
    )

delete_before-keeps :
    (t : ℕ) (es dir : List Entry) (e : Entry)
    → Has dir e
    → NotDue t es e
    → Has (delete_before t es dir) e
delete_before-keeps t [] dir e h c = h
delete_before-keeps t (x ∷ es) dir e h c =
    delete_before-keeps t es (shown t x dir) e (shown-keeps t x dir e h (λ q. c x (inl refl) q))
      (λ x' k n. c x' (inr k) n)

-- Why a file of the directory stays.
pub data Stays (min_time : ℕ) (dir : List Entry) (e : Entry) : Type 0 where
  other : e.is_ltx ≡ false → Stays min_time dir e
  recent : min_time < e.mod_time → Stays min_time dir e
  newest : ((x : Entry) → Has dir x → x.is_ltx ≡ true → x.name ≤ e.name) → Stays min_time dir e

module _ (t : ℕ) (dir : List Entry) (s : IsSorted dir) (e : Entry) where
  abbrev files : List Entry
  files = filter (λ e. e.is_ltx) dir

  files-IsSorted : IsSorted files
  files-IsSorted = filter-IsSorted (λ e. e.is_ltx) dir s

  stays : Has dir e → NotDue t (but_last files) e → Stays t dir e
  stays h c = elim (Bool-cases e.is_ltx) [
    | inr n ↦ other n
    | inl y ↦
        elim (but_last-cases files e files-IsSorted (filter-keeps (λ e. e.is_ltx) dir e h y)) [
          | inl k ↦ recent (c e k refl)
          | inr m ↦ newest (λ x k l. m x (filter-keeps (λ e. e.is_ltx) dir x k l))
        ]
  ]

  not_due : Has dir e → Stays t dir e → NotDue t (but_last files) e
  not_due h w x k n = why w
    where
      deleted : Has files x × ((y : Entry) × Has files y × (x.name < y.name))
      deleted = but_last-Has files x files-IsSorted k

      file : Has dir x × (x.is_ltx ≡ true)
      file = filter-Has (λ e. e.is_ltx) dir x deleted.0

      same : x ≡ e
      same = IsSorted-distinct dir s x e file.0 h n

      after : Has dir deleted.1.0 × (deleted.1.0.is_ltx ≡ true)
      after = filter-Has (λ e. e.is_ltx) dir deleted.1.0 deleted.1.1

      why : Stays t dir e → t < x.mod_time
      why (other l) = absurd (cc (l, file.1, ap (λ e. e.is_ltx) same))
      why (recent l) = subst (λ e. t < e.mod_time) (sym same) l
      why (newest m) = absurd (omega (arith, m deleted.1.0 after.0 after.1, deleted.1.2, n))

-- Where os.ReadDir returns the names in order and sort.Slice keeps a list that is in order, a file
-- is in the directory after EnforceRetention if and only if it was there before and is no transaction
-- file, or is modified after the minimum time, or has the greatest name of the transaction files.
pub enforce_retention_correct :
    (sort : List Entry → List Entry)
    → ((xs : List Entry) → IsSorted xs → sort xs ≡ xs)
    → (min_time : ℕ) (dir : List Entry) → IsSorted dir
    → (e : Entry) → Has (enforce_retention sort min_time dir) e ↔ (Has dir e × Stays min_time dir e)
unfolding enforce_retention read_ltx_dir
enforce_retention_correct sort sorts t dir s e = (
  λ h.
      let r =
        delete_before-Has t (but_last (files t dir s e)) dir e
          (subst (λ l. Has (delete_before t (but_last l) dir) e) sorted h) in
      (r.0, stays t dir s e r.0 r.1),
  λ h.
      subst (λ l. Has (delete_before t (but_last l) dir) e) (sym sorted)
        (delete_before-keeps t (but_last (files t dir s e)) dir e h.0 (not_due t dir s e h.0 h.1)),
)
  where
    sorted : sort (filter (λ e. e.is_ltx) dir) ≡ filter (λ e. e.is_ltx) dir
    sorted = sorts (filter (λ e. e.is_ltx) dir) (filter-IsSorted (λ e. e.is_ltx) dir s)
