-- ===== src/Vmm/Blocks.antt =====
-- The block copies of core/common/vmm.c against a byte-by-byte view: guest memory is the bytes at
-- `host_of`, whatever the pages behind them.
use voland.Base.{ℕ, zero, suc, ◌+◌, ◌-◌, ◌/◌, ◌%◌, ◌≤◌, ◌<◌, ◌≡◌, refl, arith, false}
use voland.Base.{◌==◌, ◌∙◌, ap, ap₂, update}
use voland.Base.{some, List, [], ◌∷◌, ◌++◌, length, take, drop, length-drop}
use voland.Vmm.{Context, page_size, perm_r, perm_w}
use voland.Vmm.Access.{
  Checked, done, fault, vmm_translate_inline, read_bytes, write_bytes, chunk_of, copy_guest_to_host,
  copy_host_to_guest,
}
use voland.Vmm.Translate.{Accessible, AllAccessible, host_of, Translated, vmm_translate_inline_lem}

-- The bytes of `n` guest addresses from `gva` on.
unfoldable pub guest_bytes : Context → ℕ → ℕ → List ℕ
guest_bytes ctx gva zero = []
guest_bytes ctx gva (suc n) = ctx.memory (host_of ctx gva) ∷ guest_bytes ctx (gva + 1) n

-- One write for each byte, in order.
unfoldable pub store_bytes : Context → (ℕ → ℕ) → ℕ → List ℕ → ℕ → ℕ
store_bytes ctx memory gva [] = memory
store_bytes ctx memory gva (b ∷ bs) =
    store_bytes ctx (update memory (host_of ctx gva) b) (gva + 1) bs

-- Within a page, the next guest byte is the next host byte.
host_of-next :
    (ctx : Context) (gva : ℕ)
    → gva % page_size + 1 < page_size
    → host_of ctx gva + 1 ≡ host_of ctx (gva + 1)
unfolding host_of
host_of-next ctx gva h =
    let same : (gva + 1) / page_size ≡ gva / page_size = omega arith in rw same (omega arith)

pub read_bytes-guest_bytes :
    (ctx : Context) (k n gva next rest : ℕ)
    → next ≡ gva + k
    → rest + k ≡ n
    → gva % page_size + k ≤ page_size
    → read_bytes ctx.memory (host_of ctx gva) k ++ guest_bytes ctx next rest ≡ guest_bytes ctx gva n
unfolding read_bytes guest_bytes
read_bytes-guest_bytes ctx zero n gva next rest e f fits =
    ap₂ (guest_bytes ctx) (omega arith) (omega arith)
read_bytes-guest_bytes ctx (suc k) zero gva next rest e f fits = absurd (omega arith)
read_bytes-guest_bytes ctx (suc zero) (suc n) gva next rest e f fits =
    ap (λ bs. ctx.memory (host_of ctx gva) ∷ bs) (ap₂ (guest_bytes ctx) (omega arith) (omega arith))
read_bytes-guest_bytes ctx (suc (suc k)) (suc n) gva next rest e f fits =
    ap (λ bs. ctx.memory (host_of ctx gva) ∷ bs)
      (rw (host_of-next ctx gva (omega arith)) (
        read_bytes-guest_bytes ctx (suc k) n (gva + 1) next rest (omega arith) (omega arith)
          (omega arith)))

pub write_bytes-store_bytes :
    (ctx : Context) (k : ℕ) (src : List ℕ) (memory : ℕ → ℕ) (gva next : ℕ)
    → next ≡ gva + k
    → gva % page_size + k ≤ page_size
    → store_bytes ctx (write_bytes memory (host_of ctx gva) (take k src)) next (drop k src)
      ≡ store_bytes ctx memory gva src
unfolding write_bytes store_bytes
write_bytes-store_bytes ctx zero src memory gva next e fits =
    ap (λ g. store_bytes ctx memory g src) (omega arith)
write_bytes-store_bytes ctx (suc k) [] memory gva next e fits = refl
write_bytes-store_bytes ctx (suc zero) (b ∷ src) memory gva next e fits =
    ap (λ g. store_bytes ctx (update memory (host_of ctx gva) b) g src) e
write_bytes-store_bytes ctx (suc (suc k)) (b ∷ src) memory gva next e fits =
    rw (host_of-next ctx gva (omega arith), write_bytes)
      (write_bytes-store_bytes ctx (suc k) src (update memory (host_of ctx gva) b) (gva + 1) next
        (omega arith) (omega arith))

-- A round makes progress, within what remains and within the page.
pub chunk_of_bounds :
    (cursor remaining : ℕ)
    → 0 < remaining
    → (0 < chunk_of cursor remaining)
      × (chunk_of cursor remaining ≤ remaining)
      × (cursor % page_size + chunk_of cursor remaining ≤ page_size)
unfolding chunk_of
chunk_of_bounds cursor remaining pos = ground arith

translate-memory :
    (ctx : Context) (memory : ℕ → ℕ) (gva perms : ℕ)
    → vmm_translate_inline (record ctx { memory = memory }) gva perms
      ≡ vmm_translate_inline ctx gva perms
unfolding vmm_translate_inline
translate-memory ctx memory gva perms = refl

pub translate-Accessible :
    (ctx : Context) (perms gva : ℕ)
    → Accessible ctx perms gva
    → vmm_translate_inline ctx gva perms ≡ done (host_of ctx gva)
translate-Accessible ctx perms gva a =
    go (vmm_translate_inline ctx gva perms) (vmm_translate_inline_lem ctx perms gva)
  where
    go : (t : Checked ℕ) → Translated ctx perms gva t → t ≡ done (host_of ctx gva)
    go (fault f) (off, at, req) = absurd (off a)
    go (done host) (b, at) = ap done at

-- After a validation the copy from the guest goes through, and gives the bytes of the range.
pub copy_guest_to_host_lem :
    (ctx : Context) (fuel cursor remaining : ℕ)
    → remaining ≤ fuel
    → AllAccessible ctx perm_r cursor (cursor + remaining)
    → copy_guest_to_host ctx cursor remaining fuel ≡ some (guest_bytes ctx cursor remaining)
unfolding copy_guest_to_host guest_bytes
copy_guest_to_host_lem ctx zero cursor zero le all = refl
copy_guest_to_host_lem ctx zero cursor (suc n) le all = absurd (omega arith)
copy_guest_to_host_lem ctx (suc fuel) cursor zero le all = refl
copy_guest_to_host_lem ctx (suc fuel) cursor (suc n) le all =
    let chunk = chunk_of cursor (suc n) in
    let bounds = chunk_of_bounds cursor (suc n) (omega arith) in
    let here = translate-Accessible ctx perm_r cursor (all cursor (omega arith) (omega arith)) in
    let rest =
      copy_guest_to_host_lem ctx fuel (cursor + chunk) (suc n - chunk) (omega (arith, bounds))
        (λ x low high. all x (omega arith) (omega (arith, bounds))) in
    let test : (suc n == 0) ≡ false = ground arith in
    rw (test, here, rest, copy_guest_to_host)
      (ap some (
        read_bytes-guest_bytes ctx chunk (suc n) cursor (cursor + chunk) (suc n - chunk) refl
          (omega (arith, bounds)) bounds.2))

pub copy_host_to_guest_lem :
    (fuel : ℕ) (ctx : Context) (memory : ℕ → ℕ) (cursor : ℕ) (src : List ℕ)
    → length src ≤ fuel
    → AllAccessible ctx perm_w cursor (cursor + length src)
    → copy_host_to_guest (record ctx { memory = memory }) cursor src fuel
      ≡ some (record ctx { memory = store_bytes ctx memory cursor src })
unfolding copy_host_to_guest store_bytes
copy_host_to_guest_lem zero ctx memory cursor [] le all = refl
copy_host_to_guest_lem zero ctx memory cursor (b ∷ bs) le all = absurd (omega arith)
copy_host_to_guest_lem (suc fuel) ctx memory cursor [] le all = refl
copy_host_to_guest_lem (suc fuel) ctx memory cursor (b ∷ bs) le all =
    let chunk = chunk_of cursor (length (b ∷ bs)) in
    let left = length-drop chunk (b ∷ bs) in
    let bounds = chunk_of_bounds cursor (length (b ∷ bs)) (omega arith) in
    let here =
      translate-memory ctx memory cursor perm_w
      ∙ translate-Accessible ctx perm_w cursor (all cursor (omega arith) (omega arith)) in
    let rest =
      copy_host_to_guest_lem fuel ctx
        (write_bytes memory (host_of ctx cursor) (take chunk (b ∷ bs))) (cursor + chunk)
        (drop chunk (b ∷ bs)) (omega (arith, bounds, left))
        (λ x low high. all x (omega arith) (omega (arith, bounds, left))) in
    let join =
      write_bytes-store_bytes ctx chunk (b ∷ bs) memory cursor (cursor + chunk) refl bounds.2 in
    let test : (suc (length bs) == 0) ≡ false = ground arith in
    rw (test, here, copy_host_to_guest) (rest ∙ ap (λ m. some (record ctx { memory = m })) join)
