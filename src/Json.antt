-- ===== src/Json.antt =====
-- Values that JSON.parse gives, N the type of numbers, and how the client reads the members of an
-- untyped payload (client/data/ws-client.ts).
use finance_next.Base.{String, Bool, Option, none, some, if◌then◌else◌, ◌==◌, string_key}

mutual
  pub data Json (N : Type 0) : Type 0 where
    null : Json N
    boolean : Bool → Json N
    number : N → Json N
    text : String → Json N
    array : Items N → Json N
    object : Members N → Json N

  pub data Items (N : Type 0) : Type 0 where
    nil : Items N
    cons : Json N → Items N → Items N

  pub data Members (N : Type 0) : Type 0 where
    end : Members N
    member : String → Json N → Members N → Members N

module _ {N : Type 0} where
  abbrev pub find_member : String → Members N → Option (Json N)
  find_member key end = none
  find_member key (member k v ms) = if k == key then some v else find_member key ms

  -- `(payload ?? {})[key]`: what is no object has no such member.
  abbrev pub at_key : String → Option (Json N) → Option (Json N)
  at_key key (some (object ms)) = find_member key ms
  at_key key _ = none

  -- `typeof v === "number"`, with the number.
  abbrev pub as_number : Option (Json N) → Option N
  as_number (some (number n)) = some n
  as_number _ = none

  -- `typeof v === "string"`, with the string.
  abbrev pub as_text : Option (Json N) → Option String
  as_text (some (text s)) = some s
  as_text _ = none
