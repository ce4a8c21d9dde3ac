-- ===== src/Ax25/Text.antt =====
-- ax25.c, addresses as text: addrCmp, str2addr, addr2str, digis2str, args2digis and
-- ax25_search_digis.
use arctic_tracker_teensy.Base.{
  ℕ, zero, suc, ◌%◌, Bool, true, false, ◌&&◌, List, [], ◌∷◌, ◌++◌, take, ltb, ◌==◌, bit_and, length,
  if◌then◌else◌,
}
use arctic_tracker_teensy.Printf.{decimal, atoi, toupper}
use arctic_tracker_teensy.Ax25.{Addr}

-- FLAG_DIGI
abbrev pub flag_digi : ℕ
flag_digi = 0x80

-- `strncmp(a, b, n) == 0`
unfoldable pub same_prefix : ℕ → List ℕ → List ℕ → Bool
same_prefix zero xs ys = true
same_prefix (suc n) [] [] = true
same_prefix (suc n) [] (y ∷ ys) = y == 0
same_prefix (suc n) (x ∷ xs) [] = x == 0
same_prefix (suc n) (x ∷ xs) (y ∷ ys) =
    let rest = same_prefix n xs ys in if x == y then (if x == 0 then true else rest) else false

-- addrCmp
unfoldable pub addr_cmp : Addr → Addr → Bool
addr_cmp a1 a2 = same_prefix 7 a1.callsign a2.callsign && a1.ssid == a2.ssid

-- The loop of str2addr, with `n` characters to go: the callsign and the SSID.
unfoldable pub str2addr_loop : ℕ → List ℕ → List ℕ × ℕ
str2addr_loop zero string = ([], 0)
str2addr_loop (suc n) [] = ([], 0)
str2addr_loop (suc n) (c ∷ string) =
    let rest = str2addr_loop n string in
    if c == 0
    then ([], 0)
    else if c == 45
    then ([], atoi string % 256)
    else (toupper c ∷ rest.0, rest.1)

-- str2addr: of a call of seven characters the NUL goes behind the array, to the place of the SSID,
-- which is written next.
unfoldable pub str2addr : List ℕ → Bool → Addr
str2addr string digi =
    let r = str2addr_loop 7 string in
    record { callsign = r.0; ssid = bit_and r.1 0x0F; flags = if digi then flag_digi else 0 }

-- addr2str
unfoldable pub addr2str : Addr → List ℕ
addr2str a = if a.ssid == 0 then a.callsign else a.callsign ++ (45 ∷ decimal a.ssid)

-- The loop of digis2str.
unfoldable pub join_digis : List Addr → List ℕ
join_digis [] = []
join_digis (d ∷ []) = addr2str d
join_digis (d ∷ e ∷ ds) = addr2str d ++ (44 ∷ join_digis (e ∷ ds))

-- digis2str, of the `ndigis` addresses listed: "<EMPTY>" where there are none
unfoldable pub digis2str : List Addr → List ℕ
digis2str [] = 60 ∷ 69 ∷ 77 ∷ 80 ∷ 84 ∷ 89 ∷ 62 ∷ []
digis2str (d ∷ ds) = join_digis (d ∷ ds)

unfoldable pub convert : List (List ℕ) → List Addr
convert [] = []
convert (arg ∷ args) = str2addr arg false ∷ convert args

-- args2digis: the addresses stored, and the number that it returns
unfoldable pub args2digis : ℕ → List (List ℕ) → List Addr × ℕ
args2digis ndigis argv = let n = if ltb 7 ndigis then 7 else ndigis in (convert (take n argv), n)

-- The inner loop of ax25_search_digis.
unfoldable pub found : List ℕ → List Addr → Bool
found arg [] = false
found arg (d ∷ digis) =
    let rest = found arg digis in if same_prefix (length arg) arg (addr2str d) then true else rest

-- ax25_search_digis, of the strings before the NULL
unfoldable pub search_digis : List Addr → List (List ℕ) → Bool
search_digis digis [] = false
search_digis digis (arg ∷ argv) =
    let rest = search_digis digis argv in if found arg digis then true else rest
