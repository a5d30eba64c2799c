-- ===== src/Decimal/Laws.antt =====
-- What the walk of back/src/lib/decimal.ts leaves.
use auctionhaus.Prelude.{◌≡◌, refl, ap, false}
use auctionhaus.Decimal.{
  Value, null, undefined, decimal, number, text, boolean, date, array, object, Items, nil, cons,
  Entries, end, entry, serialize_money, serialize_items, serialize_entries, has_decimal,
  some_decimal, entry_decimal,
}

module _ {D N : Type 0} (to_number : D → N) where
  mutual
    unfolding serialize_money has_decimal

    none_left : (v : Value D N) → has_decimal (serialize_money to_number v) ≡ false
    none_left null = refl
    none_left undefined = refl
    none_left (decimal d) = refl
    none_left (number n) = refl
    none_left (text t) = refl
    none_left (boolean b) = refl
    none_left (date t) = refl
    none_left (array xs) = none_left_items xs
    none_left (object es) = none_left_entries es

    none_left_items : (xs : Items D N) → some_decimal (serialize_items to_number xs) ≡ false
    none_left_items nil = refl
    none_left_items (cons v xs) = rw (none_left v) (none_left_items xs)

    none_left_entries : (es : Entries D N) → entry_decimal (serialize_entries to_number es) ≡ false
    none_left_entries end = refl
    none_left_entries (entry k v es) = rw (none_left v) (none_left_entries es)

  mutual
    unfolding serialize_money

    walk_again :
        (v : Value D N)
        → serialize_money to_number (serialize_money to_number v) ≡ serialize_money to_number v
    walk_again null = refl
    walk_again undefined = refl
    walk_again (decimal d) = refl
    walk_again (number n) = refl
    walk_again (text t) = refl
    walk_again (boolean b) = refl
    walk_again (date t) = refl
    walk_again (array xs) = ap array (walk_again_items xs)
    walk_again (object es) = ap object (walk_again_entries es)

    walk_again_items :
        (xs : Items D N)
        → serialize_items to_number (serialize_items to_number xs) ≡ serialize_items to_number xs
    walk_again_items nil = refl
    walk_again_items (cons v xs) = rw (walk_again v, walk_again_items xs) refl

    walk_again_entries :
        (es : Entries D N)
        → serialize_entries to_number (serialize_entries to_number es)
          ≡ serialize_entries to_number es
    walk_again_entries end = refl
    walk_again_entries (entry k v es) = rw (walk_again v, walk_again_entries es) refl

  -- The walk leaves no decimal at any depth, and a second walk changes nothing.
  pub serialize_money-plain :
      (v : Value D N)
      → (has_decimal (serialize_money to_number v) ≡ false)
        × (serialize_money to_number (serialize_money to_number v) ≡ serialize_money to_number v)
  serialize_money-plain v = (none_left v, walk_again v)
