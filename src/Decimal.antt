-- ===== src/Decimal.antt =====
-- back/src/lib/decimal.ts: the walk that turns the decimals of a response into numbers. Prisma's decimal
-- and its `toNumber` are parameters (the constructor `decimal` stands for what isDecimalLike finds), as is the
-- type of JavaScript's numbers.
mod Laws
mod Tests
use auctionhaus.Prelude.{ℕ, Bool, true, false, ◌||◌, List}

mutual
  pub data Value (D N : Type 0) : Type 0 where
    null : Value D N
    undefined : Value D N
    decimal : D → Value D N
    number : N → Value D N
    text : List ℕ → Value D N
    boolean : Bool → Value D N
    date : ℕ → Value D N
    array : Items D N → Value D N
    object : Entries D N → Value D N

  pub data Items (D N : Type 0) : Type 0 where
    nil : Items D N
    cons : Value D N → Items D N → Items D N

  pub data Entries (D N : Type 0) : Type 0 where
    end : Entries D N
    entry : List ℕ → Value D N → Entries D N → Entries D N

-- `serializeMoney`.
unfoldable mutual
  pub serialize_money : {D N : Type 0} → (D → N) → Value D N → Value D N
  serialize_money to_number null = null
  serialize_money to_number undefined = undefined
  serialize_money to_number (decimal d) = number (to_number d)
  serialize_money to_number (number n) = number n
  serialize_money to_number (text t) = text t
  serialize_money to_number (boolean b) = boolean b
  serialize_money to_number (date t) = date t
  serialize_money to_number (array xs) = array (serialize_items to_number xs)
  serialize_money to_number (object es) = object (serialize_entries to_number es)

  pub serialize_items : {D N : Type 0} → (D → N) → Items D N → Items D N
  serialize_items to_number nil = nil
  serialize_items to_number (cons v xs) =
      cons (serialize_money to_number v) (serialize_items to_number xs)

  pub serialize_entries : {D N : Type 0} → (D → N) → Entries D N → Entries D N
  serialize_entries to_number end = end
  serialize_entries to_number (entry k v es) =
      entry k (serialize_money to_number v) (serialize_entries to_number es)

-- A decimal is left somewhere in the value.
unfoldable mutual
  pub has_decimal : {D N : Type 0} → Value D N → Bool
  has_decimal (decimal d) = true
  has_decimal (array xs) = some_decimal xs
  has_decimal (object es) = entry_decimal es
  has_decimal _ = false

  pub some_decimal : {D N : Type 0} → Items D N → Bool
  some_decimal nil = false
  some_decimal (cons v xs) = has_decimal v || some_decimal xs

  pub entry_decimal : {D N : Type 0} → Entries D N → Bool
  entry_decimal end = false
  entry_decimal (entry k v es) = has_decimal v || entry_decimal es
