-- ===== src/MarketData/Behind.antt =====
-- One book of market-data/domain/market-data.ts and a client that is behind it.
use exchanger.Prelude.{
  drop-append, ℕ, suc, ◌+◌, ◌≡◌, refl, sym, ap, ◌∙◌, inl, inr, String, false, List, [], ◌∷◌, ◌++◌,
  none, arith, length, length-append, length-drop, ltb, ◌==◌, ==_iff, drop, Bool-cases, str_eq,
}
use mathlib.Core.List.{append_assoc, append-nil}
use exchanger.Prelude.Dict.{Dict, get, put, remove, get-put, put-fresh}
use exchanger.Prelude.Dict.Each.{Each, Each-put, Each-remove, Each-fresh, Each-map}
use exchanger.MarketData.Messages.{
  BookLevel, OrderBookSnapshot, OrderBookIncrement, book_snapshot, BookState,
}
use exchanger.MarketData.Hub.{
  to_map, to_levels, apply_level, apply_levels, load, advance, snapshot_of, newer, resync_book,
}
use exchanger.MarketData.Replica.{
  Replica, view, follow, receive, receive_all, follow_all, IsBehind, receive_all-map,
  follow_all-append, Consecutive-append, newer-append, drop-drop, drop_whole, newer-retain,
}

abbrev pub IsDistinct : Dict String → Type 0
IsDistinct = Each (λ _ _. Unit {0})

-- The sides of a book have distinct prices, and no stored increment is ahead of the book.
pub record IsWhole (state : BookState) : Type 0 where
  pub bids : IsDistinct state.bids
  pub asks : IsDistinct state.asks
  pub current : newer state.sequence state.history ≡ []

to_map-IsDistinct :
    (levels : List BookLevel) (target : Dict String)
    → IsDistinct target
    → IsDistinct (to_map levels target)
unfolding to_map
to_map-IsDistinct [] target h = h
to_map-IsDistinct (level ∷ levels) target h =
    to_map-IsDistinct levels (put level.price level.quantity target) (
      Each-put (λ _ _. Unit {0}) (λ _ _. Unit {0}) level.price level.quantity target h tt
        (λ _ _ _ _. tt))

apply_levels-IsDistinct :
    (levels : List BookLevel) (target : Dict String)
    → IsDistinct target
    → IsDistinct (apply_levels levels target)
unfolding apply_levels apply_level
apply_levels-IsDistinct [] target h = h
apply_levels-IsDistinct (level ∷ levels) target h = elim (Bool-cases (str_eq level.quantity "0")) [
  | inl gone ↦ rw gone (
      apply_levels-IsDistinct levels (remove level.price target)
        (Each-remove (λ _ _. Unit {0}) level.price target h))
  | inr kept ↦ rw kept (
      apply_levels-IsDistinct levels (put level.price level.quantity target) (
        Each-put (λ _ _. Unit {0}) (λ _ _. Unit {0}) level.price level.quantity target h tt
          (λ _ _ _ _. tt)))
]

newer_suc : (n : ℕ) (xs : List OrderBookIncrement) → newer n xs ≡ [] → newer (n + 1) xs ≡ []
unfolding newer
newer_suc n [] h = refl
newer_suc n (x ∷ xs) h = ground (arith, newer_suc n xs)

newer-append_old :
    (n : ℕ) (xs : List OrderBookIncrement) (x : OrderBookIncrement)
    → ltb n x.sequence ≡ false
    → newer n (xs ++ x ∷ []) ≡ newer n xs
unfolding newer
newer-append_old n [] x h = rw h
newer-append_old n (y ∷ xs) x h = ground (arith, newer-append_old n xs x h)

pub load-IsWhole : (snapshot : OrderBookSnapshot) → IsWhole (load snapshot)
unfolding load
load-IsWhole snapshot = record {
  bids = to_map-IsDistinct snapshot.bids [] tt;
  asks = to_map-IsDistinct snapshot.asks [] tt;
  current = unfold newer in refl;
}

pub advance-IsWhole :
    (increment : OrderBookIncrement) (state : BookState)
    → increment.sequence ≡ state.sequence + 1
    → IsWhole state
    → IsWhole (advance increment state)
unfolding advance
advance-IsWhole increment state e h =
    let n = increment.sequence in
    let items = state.history ++ increment ∷ [] in
    let none_newer : newer n items ≡ [] =
      newer-append_old n state.history increment (ground arith)
      ∙ (rw e (newer_suc state.sequence state.history h.current)) in
    record {
      bids = apply_levels-IsDistinct increment.bids state.bids h.bids;
      asks = apply_levels-IsDistinct increment.asks state.asks h.asks;
      current = elim (newer-retain n items) [
        | inl same ↦ same ∙ none_newer
        | inr (shorter, _) ↦ rw none_newer at shorter
      ];
    }

pub start-IsBehind : (state : BookState) → IsWhole state → IsBehind (view state) state []
start-IsBehind state h = record {
  counted = omega arith;
  synced = unfold follow_all in refl;
  ordered = tt;
  lost = 0;
  lost_bound = omega arith;
  kept = h.current;
}

pub advance-IsBehind :
    (increment : OrderBookIncrement) (replica : Replica) (state : BookState)
    (missed : List OrderBookIncrement)
    → increment.sequence ≡ state.sequence + 1
    → IsBehind replica state missed
    → IsBehind replica (advance increment state) (missed ++ increment ∷ [])
unfolding advance
advance-IsBehind increment replica state missed e h =
    let n = replica.sequence in
    let items = state.history ++ increment ∷ [] in
    let all = missed ++ increment ∷ [] in
    let added : newer n items ≡ drop h.lost all =
      newer-append n state.history increment (ground (arith, h.counted))
      ∙ ap (λ xs. xs ++ increment ∷ []) h.kept
      ∙ sym (drop-append h.lost missed (increment ∷ []) h.lost_bound) in
    let counted' : increment.sequence ≡ n + length all =
      omega (arith, e, h.counted, length-append missed (increment ∷ [])) in
    let synced' : follow_all all replica ≡ view (advance increment state) =
      follow_all-append missed increment replica
      ∙ ap (follow increment) h.synced
      ∙ (unfold advance follow in refl) in
    let ordered' = Consecutive-append n missed increment h.ordered (omega (arith, e, h.counted)) in
    elim (newer-retain n items) [
      | inl same ↦ record {
        counted = counted';
        synced = synced';
        ordered = ordered';
        lost = h.lost;
        lost_bound = omega (arith, h.lost_bound, length-append missed (increment ∷ []));
        kept = same ∙ added;
      }
      | inr (shorter, long) ↦ record {
        counted = counted';
        synced = synced';
        ordered = ordered';
        lost = suc h.lost;
        lost_bound = omega (arith, h.lost_bound, ap length added, length-drop h.lost all, long);
        kept = shorter ∙ ap (drop 1) added ∙ drop-drop h.lost all;
      }
    ]

to_map-append :
    (m before : Dict String)
    → Each (λ k _. get k before ≡ none) m
    → to_map (to_levels m) before ≡ before ++ m
unfolding to_map to_levels
to_map-append [] before h = sym (append-nil before)
to_map-append ((k, v) ∷ m) before h =
    to_map-append m (put k v before) (
      Each-fresh (λ j _. get j (put k v before) ≡ none) (λ j _. get j before ≡ none) k m h.1 h.2
        (λ j w other q. get-put k j v before ∙ rw other q))
    ∙ ap (λ d. d ++ m) (put-fresh k v before h.0)
    ∙ append_assoc before ((k, v) ∷ []) m

to_map-to_levels : (m : Dict String) → IsDistinct m → to_map (to_levels m) [] ≡ m
to_map-to_levels m h =
    to_map-append m []
      (Each-map (λ _ _. Unit {0}) (λ k _. get k [] ≡ none) m (λ k v _. unfold get in refl) h)

snapshot-receive :
    (instrument_id : String) (replica : Replica) (state : BookState)
    → IsWhole state
    → receive_all (book_snapshot (snapshot_of instrument_id state) ∷ []) replica ≡ view state
unfolding receive_all receive snapshot_of load
snapshot-receive instrument_id replica state w =
    rw (to_map-to_levels state.bids w.bids, to_map-to_levels state.asks w.asks) refl

pub resync_book-receive_all :
    (instrument_id : String) (replica : Replica) (state : BookState)
    (missed : List OrderBookIncrement)
    → IsWhole state
    → IsBehind replica state missed
    → receive_all (resync_book instrument_id replica.sequence state) replica ≡ view state
unfolding resync_book
resync_book-receive_all instrument_id replica state missed w h =
    let replay = newer replica.sequence state.history in
    elim (Bool-cases (length replay + replica.sequence == state.sequence)) [
      | inl full ↦
          let whole : drop h.lost missed ≡ missed =
            drop_whole h.lost missed
              (omega (arith, ap length h.kept, h.counted, (==_iff _ _).0 full)) in
          rw (full, h.kept, whole) (receive_all-map missed replica h.ordered ∙ h.synced)
      | inr short ↦ rw short (snapshot-receive instrument_id replica state w)
    ]
