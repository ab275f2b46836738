-- ===== src/Tests/Stream.antt =====
-- A stream in two segments, the second of which arrives first.
use hyper_dpi.Prelude.{
  ℕ, zero, suc, ◌+◌, ◌-◌, ◌≤◌, ◌<◌, ◌≡◌, refl, ◌∙◌, ap, true, List, [], ◌∷◌, Bytes, codes, length,
  get_or, arith, Memory, sub32,
}
use hyper_dpi.Traffic.{http}
use hyper_dpi.Http.{skip}
use hyper_dpi.Flow.{new_state, window}
use hyper_dpi.Flow.Stream.{Segment, place_all, covered, IsPiece, ArePieces, IsPrefix}
use hyper_dpi.Flow.Stream.Delivered.{place_all-IsPrefix}

abbrev pub stream_of : Bytes → Memory
stream_of xs i = get_or xs i 0

abbrev pub early_half : Bytes → ℕ → Segment
early_half xs k = record { seq = 100; payload = xs; len = k }

abbrev pub late_half : Bytes → ℕ → Segment
late_half xs k = record { seq = 100 + k; payload = skip k xs; len = length xs - k }

abbrev pub halves : Bytes → ℕ → List Segment
halves xs k = late_half xs k ∷ early_half xs k ∷ []

get_or-skip : (k : ℕ) (xs : Bytes) (j : ℕ) → get_or (skip k xs) j 0 ≡ get_or xs (k + j) 0
get_or-skip zero xs j = ap (λ i. get_or xs i 0) {x = j} {y = 0 + j} (omega arith)
get_or-skip (suc k) [] j = refl
get_or-skip (suc k) (x ∷ xs) j =
    get_or-skip k xs j
    ∙ ap (λ i. get_or (x ∷ xs) i 0) {x = suc (k + j)} {y = suc k + j} (omega arith)

pub halves-ArePieces :
    (xs : Bytes) (k : ℕ)
    → k ≤ length xs
    → length xs ≤ window
    → ArePieces 100 (length xs) (stream_of xs) (halves xs k)
halves-ArePieces xs k h w =
    let late : IsPiece 100 (length xs) (stream_of xs) (late_half xs k) = record {
      seq_word = omega arith;
      len_word = omega arith;
      inside = omega arith;
      carries = λ j l.
          get_or-skip k xs j
          ∙ ap (stream_of xs) {x = k + j} {y = sub32 (100 + k) 100 + j} (omega arith);
    } in
    let early : IsPiece 100 (length xs) (stream_of xs) (early_half xs k) = record {
      seq_word = omega arith;
      len_word = omega arith;
      inside = omega arith;
      carries = λ j l. ap (stream_of xs) {x = j} {y = sub32 100 100 + j} (omega arith);
    } in
    (late, (early, tt))

pub halves-covered :
    (xs : Bytes) (k : ℕ)
    → k ≤ length xs
    → length xs ≤ window
    → (i : ℕ) → i < length xs
    → covered 100 (halves xs k) i ≡ true
halves-covered xs k h w i l = ground arith

abbrev text : Bytes
text = codes "GET / HTTP"

place_all-IsPrefix_example :
    IsPrefix 100 10 (stream_of text) (place_all (new_state http) (halves text 4))
place_all-IsPrefix_example =
    place_all-IsPrefix 100 10 10 (stream_of text) http (halves text 4) (omega arith) (omega arith)
      (omega arith) (omega arith) (halves-ArePieces text 4 (omega arith) (omega arith))
      (halves-covered text 4 (omega arith) (omega arith)) (λ h. absurd (omega arith))
