-- ===== src/Rdma/Gids.antt =====
-- `scan_gid_table`, driver/rdma_engine.c: the choice of a GID.
use dmaplane_master.Base.{ℕ, zero, suc, Bool, ◌&&◌, not, if◌then◌else◌, Option, none, some, Errno}

-- A GID table entry, as the scan sees it: whether its type is ROCE_UDP_ENCAP, and the kinds of its
-- address
pub record GidAttr : Type 0 where
  pub gid : ℕ
  pub is_roce : Bool
  pub is_any : Bool
  pub is_mapped : Bool
  pub is_linklocal : Bool

pub record Choice : Type 0 where
  pub first_v4mapped : Option ℕ
  pub last_linklocal : Option ℕ

abbrev pub or_else : Option ℕ → Option ℕ → Option ℕ
or_else (some a) b = some a
or_else none b = b

-- The body of the loop, for entry `i`
unfoldable pub consider : ℕ → GidAttr → Choice → Choice
consider i a c =
    if a.is_roce && not a.is_any
    then record {
      first_v4mapped = if a.is_mapped then or_else c.first_v4mapped (some i) else c.first_v4mapped;
      last_linklocal = if a.is_linklocal then some i else c.last_linklocal;
    }
    else c

-- The loop, with `n` entries left from entry `i` on; it ends at the first entry that is missing.
unfoldable pub scan_gids : (ℕ → Option GidAttr) → (n i : ℕ) → Choice → Choice
scan_gids table zero i c = c
scan_gids table (suc n) i c = elim (table i) [
  | none ↦ c
  | some a ↦ scan_gids table n (suc i) (consider i a c)
]

-- What the scan is answered: the table, the entry read again once chosen, and `rdma_query_gid` of
-- entry 0
pub record GidAnswers : Type 0 where
  pub table : ℕ → Option GidAttr
  pub again : ℕ → Option GidAttr
  pub query : Option Errno
  pub query_gid : ℕ

pub data GidFound : Type 0 where
  found : (gid index : ℕ) → GidFound
  no_gid : Errno → GidFound

abbrev pub fall_back : GidAnswers → GidFound
fall_back a = elim (a.query) [ none ↦ found a.query_gid 0 | some e ↦ no_gid e ]

abbrev pub preferred : Choice → Option ℕ
preferred c = or_else c.first_v4mapped c.last_linklocal

-- `scan_gid_table`
unfoldable pub scan_gid_table : GidAnswers → GidFound
scan_gid_table a =
    elim (preferred
      (scan_gids a.table 16 0 (record { first_v4mapped = none; last_linklocal = none }))) [
        | none ↦ fall_back a
        | some i ↦ elim (a.again i) [ some g ↦ found g.gid i | none ↦ fall_back a ]
      ]
