-- ===== src/Container/Admission.antt =====
-- What `queryAdd` of src/container.cpp has seen to where it lets an item in.
use otservbr_global.Common.{
  ℕ, ◌≤◌, ◌<◌, ◌≡◌, refl, sym, ap, ◌≢◌, ◌⊎◌, Bool, true, false, not, ◌&&◌, Option, none, some, List,
  [], ◌∷◌, arith, leb, ◌==◌, if◌then◌else◌,
}
use otservbr_global.Common.Words.{add32}
use otservbr_global.Container.{ItemType, Item, Items, Place, thing_of, item_of, size}
use otservbr_global.Container.Iterator.{
  get_container, get_item_holding_count, get_container_holding_count,
}
use otservbr_global.Container.Query.{
  ReturnValue, Flags, Surroundings, get_top_parent_container, enclosing, check_parents, contents,
  exceeds, answered, query_around, query_add, no_error, not_possible, cannot_pickup,
  this_is_impossible, container_not_enough_room, not_moveable,
}

-- None of the numbers is the address.
abbrev pub Avoids : ℕ → List ℕ → Type 0
Avoids a [] = Unit {0}
Avoids a (c ∷ cs) = (c ≢ a) × Avoids a cs

-- None of the addresses is an inbox.
abbrev pub HasNoInbox : Surroundings → List ℕ → Type 0
HasNoInbox s [] = Unit {0}
HasNoInbox s (c ∷ cs) = (s.is_inbox c ≡ false) × HasNoInbox s cs

-- The limits of what a container holds at any depth, with one more item in it; an item that is itself a
-- container counts with all that it holds.
abbrev pub Fits : Surroundings → Option Items → Items → Type 0
Fits s none top = add32 (get_item_holding_count top) 1 ≤ s.max_item
Fits s (some is) top =
    (add32 (add32 (get_container_holding_count is) 1) (get_container_holding_count top)
      ≤ s.max_container)
    × (add32 (add32 (get_item_holding_count is) 1) (get_item_holding_count top) ≤ s.max_item)
    × (add32 (get_item_holding_count top) 1 ≤ s.max_item)

-- What has been seen to when a container lets an item in.
pub record Admits (types : ℕ → ItemType) (s : Surroundings) (no_limit wherever : Bool) (x : Item)
    (p : Place) : Type 0 where
  pub is_unlocked : p.here.box.unlocked ≡ true
  pub is_pickupable : (types ((thing_of x).id)).pickupable ≡ true
  pub not_into_itself : Avoids (thing_of x).address (p.here.thing.address ∷ enclosing s p)
  pub has_room :
      no_limit ≡ false
      → wherever ≡ true
      → (size p.here.itemlist < p.here.box.max_size) ⊎ (p.here.box.pagination ≡ true)
  pub no_inbox : no_limit ≡ false → HasNoInbox s (enclosing s p)
  pub fits :
      Fits s (get_container x) (contents (get_top_parent_container (item_of p.here) p.parents))
  pub top_agrees : answered s.top_answer no_error ≡ no_error

abbrev is_ok : ReturnValue → Bool
is_ok no_error = true
is_ok not_possible = false
is_ok cannot_pickup = false
is_ok this_is_impossible = false
is_ok container_not_enough_room = false
is_ok not_moveable = false

-- A guard that answers with an error has let everything pass.
guard :
    (b : Bool) (r t : ReturnValue)
    → is_ok r ≡ false
    → (if b then r else t) ≡ no_error
    → (b ≡ false) × (t ≡ no_error)
guard true r t bad h = absurd (ground (arith, bad, ap is_ok h))
guard false r t bad h = (refl, h)

unowned :
    (b : Bool) (r : ReturnValue) → b ≡ false → (if b then no_error else r) ≡ no_error → r ≡ no_error
unowned true r off h = absurd (ground arith)
unowned false r off h = h

option_guard :
    (b : Bool) (r : ReturnValue) (t : Option ReturnValue)
    → (if b then some r else t) ≡ none
    → (b ≡ false) × (t ≡ none)
option_guard true r t h = absurd (ground arith)
option_guard false r t h = (refl, h)

check_parents-Avoids :
    (s : Surroundings) (no_limit : Bool) (a : ℕ) (cs : List ℕ)
    → check_parents s no_limit a cs ≡ none
    → Avoids a cs
unfolding check_parents
check_parents-Avoids s no_limit a [] h = tt
check_parents-Avoids s no_limit a (c ∷ cs) h =
    let rest = option_guard ((c == a)) this_is_impossible _ h in
    let rest' = option_guard (not no_limit && s.is_inbox c) container_not_enough_room _ rest.1 in
    (ground (arith, rest.0), check_parents-Avoids s no_limit a cs rest'.1)

check_parents-HasNoInbox :
    (s : Surroundings) (a : ℕ) (cs : List ℕ) → check_parents s false a cs ≡ none → HasNoInbox s cs
unfolding check_parents
check_parents-HasNoInbox s a [] h = tt
check_parents-HasNoInbox s a (c ∷ cs) h =
    let rest = option_guard (c == a) this_is_impossible _ h in
    let rest' = option_guard (s.is_inbox c) container_not_enough_room _ rest.1 in
    (rest'.0, check_parents-HasNoInbox s a cs rest'.1)

exceeds-Fits :
    (s : Surroundings) (o : Option Items) (top : Items) → exceeds s o top ≡ false → Fits s o top
unfolding exceeds
exceeds-Fits s none top h = ground arith
exceeds-Fits s (some is) top h = (ground arith, ground arith, ground arith)

abbrev is_ok_answer : Option ReturnValue → Bool
is_ok_answer none = false
is_ok_answer (some r) = is_ok r

-- What the parents say is an error.
check_parents_bad :
    (s : Surroundings) (no_limit : Bool) (a : ℕ) (cs : List ℕ) (r : ReturnValue)
    → check_parents s no_limit a cs ≡ some r
    → is_ok r ≡ false
unfolding check_parents
check_parents_bad s no_limit a [] r h = absurd (ground arith)
check_parents_bad s no_limit a (c ∷ cs) r h =
    refused (c == a) (not no_limit && s.is_inbox c) (check_parents s no_limit a cs)
      (check_parents_bad s no_limit a cs r) h
  where
    refused :
        (b d : Bool) (rest : Option ReturnValue)
        → (rest ≡ some r → is_ok r ≡ false)
        → (if b
            then some this_is_impossible
            else if d
            then some container_not_enough_room
            else rest)
          ≡ some r
        → is_ok r ≡ false
    refused true d rest later e = sym (ap is_ok_answer e)
    refused false true rest later e = sym (ap is_ok_answer e)
    refused false false rest later e = later e

answered-none :
    (o : Option ReturnValue) (r : ReturnValue)
    → ((bad : ReturnValue) → o ≡ some bad → is_ok bad ≡ false)
    → answered o r ≡ no_error
    → (o ≡ none) × (r ≡ no_error)
answered-none none r wrong h = (refl, h)
answered-none (some bad) r wrong h = absurd (ground (arith, wrong bad refl, ap is_ok h))

query_around-Admits :
    (s : Surroundings) (no_limit wherever : Bool) (x : Item) (p : Place)
    → query_around s no_limit wherever x p ≡ no_error
    → (check_parents s no_limit (thing_of x).address (enclosing s p) ≡ none)
      × (not no_limit
            && (wherever
                && (leb p.here.box.max_size (size p.here.itemlist) && not p.here.box.pagination))
          ≡ false)
      × Fits s (get_container x) (contents (get_top_parent_container (item_of p.here) p.parents))
      × (answered s.top_answer no_error ≡ no_error)
unfolding query_around
query_around-Admits s no_limit wherever x p h =
    let a = (thing_of x).address in
    let top = contents (get_top_parent_container (item_of p.here) p.parents) in
    let parents =
      answered-none (check_parents s no_limit a (enclosing s p)) _
        (check_parents_bad s no_limit a (enclosing s p)) h in
    let room = guard _ container_not_enough_room _ refl parents.1 in
    let few = guard (exceeds s (get_container x) top) not_possible _ refl room.1 in
    (parents.0, room.0, exceeds-Fits s (get_container x) top few.0, few.1)

-- A query that answers with no error, for an item that a child container does not answer for, has seen
-- all of this. The container is unlocked, the item may be picked up, and it is neither the container nor
-- any cylinder around it. Unless NOLIMIT is set, no cylinder around is an inbox, and where any place
-- will do (WHEREEVER) a place is left or there is pagination. With or without NOLIMIT, in the container
-- that `getTopParentContainer` returns, the items and one more are within MAX_ITEM, and if the item is a
-- container, its containers and itself with those there are within MAX_CONTAINER, and its items and
-- itself with those there within MAX_ITEM. The top parent, where it is asked, answers with no error.
pub query_add-Admits :
    (types : ℕ → ItemType) (s : Surroundings) (flags : Flags) (wherever : Bool) (x : Item)
    (p : Place)
    → flags.child_is_owner ≡ false
    → query_add types s flags wherever (some x) p ≡ no_error
    → Admits types s flags.no_limit wherever x p
unfolding query_add
query_add-Admits types s flags wherever x p child h =
    let open_box =
      guard (not p.here.box.unlocked) not_possible _ refl
        (unowned flags.child_is_owner _ child h) in
    let taken = guard (not (types ((thing_of x).id)).pickupable) cannot_pickup _ refl open_box.1 in
    let other =
      guard ((thing_of x).address == p.here.thing.address) this_is_impossible _ refl taken.1 in
    let (around, room, fits, top) = query_around-Admits s flags.no_limit wherever x p other.1 in
    record {
      is_unlocked = ground (arith, open_box.0);
      is_pickupable = ground (arith, taken.0);
      not_into_itself =
          (ground (arith, other.0), check_parents-Avoids s flags.no_limit _ (enclosing s p) around);
      has_room = λ limited any. ground (arith, room, limited, any);
      no_inbox = λ limited. check_parents-HasNoInbox s _ (enclosing s p) (rw limited at around);
      fits = fits;
      top_agrees = top;
    }
