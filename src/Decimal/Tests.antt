-- ===== src/Decimal/Tests.antt =====
-- A row with a decimal inside an array, as the services return it.
use auctionhaus.Prelude.{ℕ, ◌*◌, ◌≡◌, refl, [], ◌∷◌}
use auctionhaus.Decimal.{
  Value, decimal, number, array, object, nil, cons, end, entry, serialize_money, date,
}

abbrev row : Value ℕ ℕ
row = object (
    entry (97 ∷ []) (array (cons (decimal 12) (cons (date 5) nil)))
      (entry (98 ∷ []) (number 7) end))

abbrev cents : ℕ → ℕ
cents d = d * 10

walked :
    serialize_money cents row
    ≡ object (
        entry
          (97 ∷ [])
          (array (cons (number 120) (cons (date 5) nil)))
          (entry (98 ∷ []) (number 7) end))
unfolding serialize_money
walked = refl
