-- ===== src/Locking/Linked.antt =====
-- locknsnoop/locking_*/load_link_interconnect.h: a conditional store goes on if the link is still
-- there, and only then.
use psa.Prelude.{ℕ, ◌≡◌, ◌≢◌, ◌⊎◌, ◌∙◌, Bool, true, false, Option, none, some, List, [], ◌∷◌, arith}
use psa.Locking.{Command, LinkCommand, load_link, store_conditional, is_write, test_link}

-- Transactions, each with its address, its command and what its extension asks for
abbrev pub Transactions : Type 0
Transactions = List (ℕ × Command × Option LinkCommand)

abbrev pub test_links : (ℕ → Bool) → Transactions → ℕ → Bool
test_links links [] = links
test_links links ((a, c, r) ∷ txs) = test_links (test_link links a c r).0 txs

-- A conditional store, or a write without a request
abbrev pub clears : Command → Option LinkCommand → Bool
clears c (some store_conditional) = true
clears c (some load_link) = false
clears c none = is_write c

abbrev pub links_it : Option LinkCommand → Bool
links_it (some load_link) = true
links_it _ = false

-- No transaction clears the link of the address.
abbrev pub KeepsLink : ℕ → Transactions → Type 0
KeepsLink adr [] = Unit
KeepsLink adr ((a, c, r) ∷ txs) = ((a ≢ adr) ⊎ (clears c r ≡ false)) × KeepsLink adr txs

-- No transaction links the address.
abbrev pub NeverLinks : ℕ → Transactions → Type 0
NeverLinks adr [] = Unit
NeverLinks adr ((a, c, r) ∷ txs) = ((a ≢ adr) ⊎ (links_it r ≡ false)) × NeverLinks adr txs

kept_step :
    (links : ℕ → Bool) (adr a : ℕ) (c : Command) (r : Option LinkCommand)
    → (a ≢ adr) ⊎ (clears c r ≡ false)
    → links adr ≡ true
    → (test_link links a c r).0 adr ≡ true
unfolding test_link
kept_step links adr a c (some load_link) k h = ground arith
kept_step links adr a c (some store_conditional) k h = ground arith
kept_step links adr a c none k h = ground arith

kept :
    (links : ℕ → Bool) (adr : ℕ) (txs : Transactions)
    → KeepsLink adr txs
    → links adr ≡ true
    → test_links links txs adr ≡ true
kept links adr [] k h = h
kept links adr ((a, c, r) ∷ txs) k h =
    kept (test_link links a c r).0 adr txs k.1 (kept_step links adr a c r k.0 h)

gone_step :
    (links : ℕ → Bool) (adr a : ℕ) (c : Command) (r : Option LinkCommand)
    → (a ≢ adr) ⊎ (links_it r ≡ false)
    → links adr ≡ false
    → (test_link links a c r).0 adr ≡ false
unfolding test_link
gone_step links adr a c (some load_link) k h = ground arith
gone_step links adr a c (some store_conditional) k h = ground arith
gone_step links adr a c none k h = ground arith

gone :
    (links : ℕ → Bool) (adr : ℕ) (txs : Transactions)
    → NeverLinks adr txs
    → links adr ≡ false
    → test_links links txs adr ≡ false
gone links adr [] k h = h
gone links adr ((a, c, r) ∷ txs) k h =
    gone (test_link links a c r).0 adr txs k.1 (gone_step links adr a c r k.0 h)

linked :
    (links : ℕ → Bool) (adr : ℕ) (c : Command)
    → (test_link links adr c (some load_link)).0 adr ≡ true
unfolding test_link
linked links adr c = ground arith

cleared :
    (links : ℕ → Bool) (adr : ℕ) (c : Command) (r : Option LinkCommand)
    → clears c r ≡ true
    → (test_link links adr c r).0 adr ≡ false
unfolding test_link
cleared links adr c (some load_link) h = ground arith
cleared links adr c (some store_conditional) h = ground arith
cleared links adr c none h = ground arith

store_goes :
    (links : ℕ → Bool) (adr : ℕ) (c : Command)
    → (test_link links adr c (some store_conditional)).1 ≡ links adr
unfolding test_link
store_goes links adr c = ground arith

-- A conditional store goes on after a load-link of its address and any transactions of which none
-- is a write without a request or a conditional store to that address.
pub store_conditional_goes :
    (links : ℕ → Bool) (adr : ℕ) (txs : Transactions) (c c' : Command)
    → KeepsLink adr txs
    → let loaded = (test_link links adr c (some load_link)).0 in
      (test_link (test_links loaded txs) adr c' (some store_conditional)).1 ≡ true
store_conditional_goes links adr txs c c' k =
    store_goes _ adr c' ∙ kept _ adr txs k (linked links adr c)

-- A conditional store is bounced after a write without a request or a conditional store to its
-- address and any transactions of which none is a load-link of that address.
pub store_conditional_bounced :
    (links : ℕ → Bool) (adr : ℕ) (txs : Transactions) (c c' : Command) (r : Option LinkCommand)
    → clears c r ≡ true
    → NeverLinks adr txs
    → let stored = (test_link links adr c r).0 in
      (test_link (test_links stored txs) adr c' (some store_conditional)).1 ≡ false
store_conditional_bounced links adr txs c c' r e k =
    store_goes _ adr c' ∙ gone _ adr txs k (cleared links adr c r e)
