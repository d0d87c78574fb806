-- ===== src/Sales/Chunks.antt =====
-- `_chunked`: the slices, put together again, are the list.
use integrado_web_xd.Prelude.{
  ℕ, zero, suc, ◌-◌, ◌≤◌, ◌<◌, ◌≡◌, refl, ap, List, [], ◌∷◌, ◌++◌, arith, length, take, drop,
}
use integrado_web_xd.Sales.{SaleRecord, chunked_from, chunked}

abbrev pub joined : List (List SaleRecord) → List SaleRecord
joined [] = []
joined (c ∷ cs) = c ++ joined cs

take-append-drop : (n : ℕ) (xs : List SaleRecord) → take n xs ++ drop n xs ≡ xs
take-append-drop zero xs = refl
take-append-drop (suc n) [] = refl
take-append-drop (suc n) (x ∷ xs) = ap (λ l. x ∷ l) (take-append-drop n xs)

length-drop : (n : ℕ) (xs : List SaleRecord) → length (drop n xs) ≡ length xs - n
length-drop zero xs = omega arith
length-drop (suc n) [] = omega arith
length-drop (suc n) (x ∷ xs) = omega (arith, length-drop n xs)

joined-chunked_from :
    (n size : ℕ) (records : List SaleRecord)
    → length records ≤ n
    → 0 < size
    → joined (chunked_from n size records) ≡ records
unfolding chunked_from
joined-chunked_from zero size [] h p = refl
joined-chunked_from zero size (r ∷ records) h p = absurd (omega arith)
joined-chunked_from (suc n) size [] h p = refl
joined-chunked_from (suc n) size (r ∷ records) h p =
    rw
      (joined-chunked_from n size (drop size (r ∷ records))
        (omega (arith, length-drop size (r ∷ records))) p)
      (take-append-drop size (r ∷ records))

-- Chunks of a positive size hold the records, each once and in order.
pub joined-chunked :
    (size : ℕ) (records : List SaleRecord) → 0 < size → joined (chunked size records) ≡ records
unfolding chunked
joined-chunked size records p = joined-chunked_from (length records) size records (omega arith) p
