-- ===== src/Matching/Resting.antt =====
-- Which order ids stand in a side of the book, and how the book's operations change that.
use exchanger.Prelude.{
  String, ◌≡◌, ◌≢◌, ◌⊎◌, refl, false, List, [], ◌∷◌, ◌++◌, none, arith, str_eq, str_eq_iff,
  Bool-cases, inl, inr,
}
use exchanger.Prelude.Dict.{Dict, get, put, remove as delete, values}
use exchanger.Prelude.Dict.Each.{Each, Each-put, Each-remove}
use exchanger.Matching.Book.{flat, level_or_none, without, remove_from_level}

abbrev pub In : String → List String → Type 0
In x [] = ⊥
In x (y ∷ ys) = (y ≡ x) ⊎ In x ys

pub In-append_left : (x : String) (xs ys : List String) → In x xs → In x (xs ++ ys)
In-append_left x [] ys h = absurd h
In-append_left x (z ∷ xs) ys (inl e) = inl e
In-append_left x (z ∷ xs) ys (inr h) = inr (In-append_left x xs ys h)

pub In-append_right : (x : String) (xs ys : List String) → In x ys → In x (xs ++ ys)
In-append_right x [] ys h = h
In-append_right x (z ∷ xs) ys h = inr (In-append_right x xs ys h)

pub In-append_cases : (x : String) (xs ys : List String) → In x (xs ++ ys) → In x xs ⊎ In x ys
In-append_cases x [] ys h = inr h
In-append_cases x (z ∷ xs) ys (inl e) = inl (inl e)
In-append_cases x (z ∷ xs) ys (inr h) = elim (In-append_cases x xs ys h) [
  | inl l ↦ inl (inr l)
  | inr r ↦ inr r
]

pub In-without : (id x : String) (xs : List String) → x ≢ id → In x xs → In x (without id xs)
unfolding without
In-without id x [] ne h = absurd h
In-without id x (y ∷ ys) ne (inl e) =
    let other : str_eq y id ≡ false = ground (arith, str_eq_iff y id) in rw other (inl e)
In-without id x (y ∷ ys) ne (inr h) = elim (Bool-cases (str_eq y id)) [
  | inl same ↦ rw same (In-without id x ys ne h)
  | inr other ↦ rw other (inr (In-without id x ys ne h))
]

-- An id in some level of a side of the book.
abbrev pub Listed : String → Dict (List String) → Type 0
Listed x book = In x (flat (values book))

-- The levels of a side have distinct prices.
abbrev pub IsMap : Dict (List String) → Type 0
IsMap = Each (λ k level. Unit)

pub put-IsMap :
    (k : String) (level : List String) (book : Dict (List String))
    → IsMap book
    → IsMap (put k level book)
put-IsMap k level book h = Each-put (λ j w. Unit) (λ j w. Unit) k level book h tt (λ j w _ u. u)

pub Listed-put_self :
    (x k : String) (level : List String) (book : Dict (List String))
    → In x level
    → Listed x (put k level book)
unfolding flat values put
Listed-put_self x k level [] h = In-append_left x level [] h
Listed-put_self x k level ((j, w) ∷ book) h = elim (Bool-cases (str_eq j k)) [
  | inl same ↦ rw same (In-append_left x level (flat (values book)) h)
  | inr other ↦ rw other (In-append_right x w _ (Listed-put_self x k level book h))
]

-- A level may be replaced by one that keeps the id.
pub Listed-put :
    (x k : String) (level : List String) (book : Dict (List String))
    → (In x (level_or_none (get k book)) → In x level)
    → Listed x book
    → Listed x (put k level book)
unfolding flat values put get
Listed-put x k level [] keep h = absurd h
Listed-put x k level ((j, w) ∷ book) keep h = elim (Bool-cases (str_eq j k)) [
  | inl same ↦ rw same (elim (In-append_cases x w (flat (values book)) h) [
    | inl here ↦ In-append_left x level (flat (values book)) (keep (rw same here))
    | inr later ↦ In-append_right x level (flat (values book)) later
  ])
  | inr other ↦ rw other (elim (In-append_cases x w (flat (values book)) h) [
    | inl here ↦ In-append_left x w _ here
    | inr later ↦ In-append_right x w _ (Listed-put x k level book (λ i. keep (rw other i)) later)
  ])
]

-- A level without the id may be deleted.
pub Listed-delete :
    (x k : String) (book : Dict (List String))
    → IsMap book
    → (In x (level_or_none (get k book)) → ⊥)
    → Listed x book
    → Listed x (delete k book)
unfolding flat values delete get
Listed-delete x k [] m out h = absurd h
Listed-delete x k ((j, w) ∷ book) m out h = elim (Bool-cases (str_eq j k)) [
  | inl same ↦
      let gone : get k book ≡ none = rw (← (str_eq_iff j k).0 same) m.1 in
      rw same (elim (In-append_cases x w (flat (values book)) h) [
        | inl here ↦ absurd (out (rw same here))
        | inr later ↦ Listed-delete x k book m.2 (λ i. rw gone at i) later
      ])
  | inr other ↦ rw other (elim (In-append_cases x w (flat (values book)) h) [
    | inl here ↦ In-append_left x w _ here
    | inr later ↦ In-append_right x w _ (Listed-delete x k book m.2 (λ i. out (rw other i)) later)
  ])
]

list_cases : (xs : List String) → (xs ≡ []) ⊎ ((y : String) × (ys : List String) × (xs ≡ y ∷ ys))
list_cases [] = inl refl
list_cases (y ∷ ys) = inr (y, ys, refl)

module _ (id k : String) (book : Dict (List String)) (m : IsMap book) where
  pub remove_from_level-IsMap : IsMap (remove_from_level id k book)
  unfolding remove_from_level
  remove_from_level-IsMap = elim (list_cases (without id (level_or_none (get k book)))) [
    | inl empty ↦ rw (empty, remove_from_level) (Each-remove (λ j w. Unit) k book m)
    | inr (y, ys, left) ↦ rw (left, remove_from_level) (put-IsMap k (y ∷ ys) book m)
  ]

  -- Taking an id from its level leaves every other id in the book.
  pub Listed-remove_from_level :
      (x : String) → x ≢ id → Listed x book → Listed x (remove_from_level id k book)
  unfolding remove_from_level
  Listed-remove_from_level x ne h =
      let kept : In x (level_or_none (get k book))
          → In x (without id (level_or_none (get k book))) =
        In-without id x (level_or_none (get k book)) ne in
      elim (list_cases (without id (level_or_none (get k book)))) [
        | inl empty ↦
            rw (empty, remove_from_level) (Listed-delete x k book m (λ i. rw empty at (kept i)) h)
        | inr (y, ys, left) ↦
            rw (left, remove_from_level) (Listed-put x k (y ∷ ys) book (λ i. rw left at (kept i)) h)
      ]
