-- ===== src/Imperium/E820/Map.antt =====
-- The map that is detected.
use micro_kernel.Base.{
  ℕ, zero, suc, ◌+◌, ◌≤◌, ◌<◌, ◌≡◌, ◌≢◌, refl, ◌∙◌, ap, List, [], ◌∷◌, Option, none, some, true,
  false, ◌==◌, ◌||◌, not, if◌then◌else◌, set, length, length-set, get_elem?, get_elem?-set_self,
  get_elem?-set_ne, Bytes, arith, leb,
}
use micro_kernel.Imperium.E820.{Reply, smap, Detected, detect_loop, detect_memory}

-- The BIOS has the map of the entries from a continuation value on: each entry with a further
-- value, and then one last entry with the value 0, or a failure.
pub data Provides (bios : ℕ → Reply) : ℕ → List Bytes → Option Bytes → Type 0 where
  fails :
      {ebx : ℕ}
      → ((bios ebx).carry || not ((bios ebx).eax == smap)) ≡ true
      → Provides bios ebx [] none
  last :
      {ebx : ℕ} (e : Bytes)
      → bios ebx ≡ record { carry = false; eax = smap; ebx = 0; entry = e }
      → Provides bios ebx [] (some e)
  more :
      {ebx : ℕ} (next : ℕ) (e : Bytes) (es : List Bytes) (end : Option Bytes)
      → bios ebx ≡ record { carry = false; eax = smap; ebx = next; entry = e }
      → next ≢ 0
      → Provides bios next es end
      → Provides bios ebx (e ∷ es) end

-- What the loop leaves, from the index `count` on with the entries `es` to come.
pub record IsDetected (d : Detected) (count left : ℕ) (map : List Bytes) (es : List Bytes)
    (end : Option Bytes) : Type 0 where
  pub size : length d.map ≡ length map
  pub counted : d.count ≡ (if leb (length es) left then count + length es else count + left)
  pub earlier : (i : ℕ) → i < count → get_elem? d.map i ≡ get_elem? map i
  pub entries : (i : ℕ) → i < left → i < length es → get_elem? d.map (count + i) ≡ get_elem? es i
  pub beyond :
      (e : Bytes) → end ≡ some e → length es < left → get_elem? d.map (count + length es) ≡ some e

stops :
    (left count status : ℕ) (map : List Bytes) (e : Bytes) (end : Option Bytes)
    → count + suc left ≤ length map
    → ((e' : Bytes) → end ≡ some e' → e ≡ e')
    → IsDetected
        (record { map = set map count e; count = count; status = status })
        count
        (suc left)
        map
        []
        end
stops left count status map e end size same = record {
  size = length-set map count e;
  counted = ground arith;
  earlier = λ i b. get_elem?-set_ne map count i e (omega arith);
  entries = λ i b b'. absurd (omega arith);
  beyond = λ e' at b.
      ap (get_elem? (set map count e)) (omega arith)
      ∙ (get_elem?-set_self map count e (omega arith) ∙ ap some (same e' at));
}

entry_at :
    (d : Detected) (left count : ℕ) (map es : List Bytes) (e : Bytes) (end : Option Bytes)
    → count + suc left ≤ length map
    → IsDetected d (count + 1) left (set map count e) es end
    → (i : ℕ) → i < suc left
    → i < length (e ∷ es)
    → get_elem? d.map (count + i) ≡ get_elem? (e ∷ es) i
entry_at d left count map es e end size h zero b b' =
    ap (get_elem? d.map) (omega arith)
    ∙ (h.earlier count (omega arith) ∙ get_elem?-set_self map count e (omega arith))
entry_at d left count map es e end size h (suc j) b b' =
    ap (get_elem? d.map) (omega arith) ∙ h.entries j (omega arith) (omega arith)

continues :
    (d : Detected) (left count : ℕ) (map es : List Bytes) (e : Bytes) (end : Option Bytes)
    → count + suc left ≤ length map
    → IsDetected d (count + 1) left (set map count e) es end
    → IsDetected d count (suc left) map (e ∷ es) end
continues d left count map es e end size h = record {
  size = h.size ∙ length-set map count e;
  counted = ground (arith, h.counted);
  earlier = λ i b. h.earlier i (omega arith) ∙ get_elem?-set_ne map count i e (omega arith);
  entries = entry_at d left count map es e end size h;
  beyond = λ e' at b. ap (get_elem? d.map) (omega arith) ∙ h.beyond e' at (omega arith);
}

detects :
    (bios : ℕ → Reply) (left ebx count : ℕ) (map es : List Bytes) (end : Option Bytes)
    → Provides bios ebx es end
    → count + left ≤ length map
    → IsDetected (detect_loop left bios ebx count map) count left map es end
unfolding detect_loop
detects bios zero ebx count map es end h size = record {
  size = refl;
  counted = ground arith;
  earlier = λ i b. refl;
  entries = λ i b. absurd (omega arith);
  beyond = λ e at b. absurd (omega arith);
}
detects bios (suc left) ebx count map es end (fails failed) size =
    rw failed (stops left count 0 map (bios ebx).entry none size (λ e' at. ground arith))
detects bios (suc left) ebx count map es end (last e reply) size =
    rw reply (stops left count 1 map e (some e) size (λ e' at. ground arith))
detects bios (suc left) ebx count map es end (more next e es' end' reply on rest) size =
    let goes_on : (next == 0) ≡ false = ground arith in
    rw (reply, goes_on)
      (continues _ left count map es' e end' size (
        detects bios left next (count + 1) (set map count e) es' end' rest
          (omega (arith, length-set map count e))))

-- With an array of 128 entries, and a BIOS that provides a map: the array holds the entries that
-- have a further continuation value, up to 128 of them, in their order, and the count is their
-- number. The last entry, the one with the continuation value 0, stands behind them and is not
-- counted. EAX is what it was before the call, success or not, since `popa` restores it.
pub detect_memory-without_last :
    (bios : ℕ → Reply) (eax : ℕ) (map es : List Bytes) (end : Option Bytes)
    → Provides bios 0 es end
    → length map ≡ 128
    → ((detect_memory bios eax map).0 ≡ eax)
      × ((detect_memory bios eax map).1.count ≡ (if leb (length es) 128 then length es else 128))
      × ((i : ℕ)
          → i < 128
          → i < length es
          → get_elem? (detect_memory bios eax map).1.map i ≡ get_elem? es i)
      × ((e : Bytes)
          → end ≡ some e
          → length es < 128
          → get_elem? (detect_memory bios eax map).1.map (length es) ≡ some e)
unfolding detect_memory
detect_memory-without_last bios eax map es end h size =
    let d = detects bios 128 0 0 map es end h (omega arith) in
    (
      refl,
      ground (arith, d.counted),
      λ i b b'. ap (get_elem? (detect_loop 128 bios 0 0 map).map) (omega arith) ∙ d.entries i b b',
      λ e at b. ap (get_elem? (detect_loop 128 bios 0 0 map).map) (omega arith) ∙ d.beyond e at b,
    )
