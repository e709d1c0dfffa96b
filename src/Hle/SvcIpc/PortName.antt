-- ===== src/Hle/SvcIpc/PortName.antt =====
-- The name that `hle_svc_connect_to_named_port` (core/hle/kernel/svc_ipc.c) reads from the guest.
use voland.Base.{ℕ, zero, suc, ◌+◌, ◌<◌, ◌≡◌, ◌≢◌, refl, arith, ap, sym, inl, inr, Bool-cases, ◌∙◌}
use voland.Base.{Option, none, some, List, [], ◌∷◌, ◌++◌, ◌==◌, ltb, if◌then◌else◌, ◌>>=◌}
use voland.Base.{length, length-append, All, All-append}
use voland.Result.{Res, ok, err}
use voland.Vmm.{Context, perm_r}
use voland.Vmm.Access.{vmm_read_block}
use voland.Vmm.Translate.{Accessible, AllAccessible, host_of}
use voland.Vmm.Blocks.{guest_bytes}
use voland.Vmm.Transfers.{BlockRead, vmm_read_block_lem}
use voland.Hle.SvcIpc.{NameRead, name, too_long, bad_pointer, read_name, first_byte}

-- The guest may read the bytes `s` at `gva`, none of which is NUL.
pub record Holds (ctx : Context) (gva : ℕ) (s : List ℕ) : Type 0 where
  pub readable : AllAccessible ctx perm_r gva (gva + length s)
  pub bytes : guest_bytes ctx gva (length s) ≡ s
  pub before_nul : All (λ b. b ≢ 0) s

-- At `gva` stands the text `s`, of less than 12 bytes, which a NUL ends.
pub record HasName (ctx : Context) (gva : ℕ) (s : List ℕ) : Type 0 where
  pub short : length s < 12
  pub text : Holds ctx gva s
  pub nul_readable : Accessible ctx perm_r (gva + length s)
  pub nul : ctx.memory (host_of ctx (gva + length s)) ≡ 0

-- What the loop may give.
abbrev pub ReadName : Context → ℕ → Option (NameRead × Context) → Type 0
ReadName ctx gva none = ⊥
ReadName ctx gva (some (name s, c)) = (c ≡ ctx) × HasName ctx gva s
ReadName ctx gva (some (too_long, c)) = (s : List ℕ) × (c ≡ ctx) × (length s ≡ 12) × Holds ctx gva s
ReadName ctx gva (some (bad_pointer, c)) =
    (s : List ℕ) × (c ≡ record ctx { last_fault = c.last_fault })
    × (length s < 12)
    × Holds ctx gva s
    × (¬ Accessible ctx perm_r (gva + length s))

guest_bytes-snoc :
    (ctx : Context) (n gva : ℕ)
    → guest_bytes ctx gva n ++ (ctx.memory (host_of ctx (gva + n)) ∷ [])
      ≡ guest_bytes ctx gva (suc n)
unfolding guest_bytes
guest_bytes-snoc ctx zero gva = ap (λ g. ctx.memory (host_of ctx g) ∷ []) (omega arith)
guest_bytes-snoc ctx (suc n) gva =
    let moved : gva + suc n ≡ gva + 1 + n = omega arith in
    rw moved (ap (λ bs. ctx.memory (host_of ctx gva) ∷ bs) (guest_bytes-snoc ctx n (gva + 1)))

-- One more byte of the name.
Holds-snoc :
    (ctx : Context) (gva : ℕ) (s : List ℕ)
    → Holds ctx gva s
    → Accessible ctx perm_r (gva + length s)
    → ctx.memory (host_of ctx (gva + length s)) ≢ 0
    → Holds ctx gva (s ++ (ctx.memory (host_of ctx (gva + length s)) ∷ []))
Holds-snoc ctx gva s h a more =
    let b = ctx.memory (host_of ctx (gva + length s)) in
    let longer : length (s ++ (b ∷ [])) ≡ suc (length s) =
      omega (arith, length-append s (b ∷ [])) in
    record {
      readable = λ x low high. elim (Bool-cases (ltb x (gva + length s))) [
        | inl below ↦ h.readable x low (ground arith)
        | inr here ↦ let at : gva + length s ≡ x = ground (arith, longer) in rw at at a
      ];
      bytes =
          ap (guest_bytes ctx gva) longer
          ∙ sym (guest_bytes-snoc ctx (length s) gva)
          ∙ ap (λ bs. bs ++ (b ∷ [])) h.bytes;
      before_nul = All-append (λ b. b ≢ 0) s _ h.before_nul (more, tt);
    }

pub read_name_lem :
    (ctx : Context) (gva n at : ℕ) (front : List ℕ)
    → length front + n ≡ 12
    → at ≡ gva + length front
    → Holds ctx gva front
    → ReadName ctx gva (read_name ctx at front n)
unfolding read_name guest_bytes
read_name_lem ctx gva zero at front count here held = (front, refl, omega (arith, count), held)
read_name_lem ctx gva (suc n) at front count here held =
    go (vmm_read_block ctx at 1) (vmm_read_block_lem ctx at 1) (λ a more.
      read_name_lem ctx gva n (at + 1) (front ++ (ctx.memory (host_of ctx at) ∷ []))
        (omega (arith, count, length-append front (ctx.memory (host_of ctx at) ∷ [])))
        (omega (arith, here, length-append front (ctx.memory (host_of ctx at) ∷ [])))
        (rw here (Holds-snoc ctx gva front held (rw here at a) (rw here at more))))
  where
    go :
        (r : Option (Res (List ℕ) × Context))
        → BlockRead ctx at 1 r
        → (Accessible ctx perm_r at
            → ctx.memory (host_of ctx at) ≢ 0
            → ReadName ctx gva
                (read_name ctx (at + 1) (front ++ (ctx.memory (host_of ctx at) ∷ [])) n))
        → ReadName ctx gva (
            r >>= λ r.
            let (got, c) = r in
            elim got [
              | err code ↦ some (bad_pointer, c)
              | ok bytes ↦
                  if first_byte bytes == 0
                  then some (name front, c)
                  else read_name c (at + 1) (front ++ (first_byte bytes ∷ [])) n
            ])
    go none w rest = absurd w
    go (some (err code, c)) w rest = (
      front,
      w.unchanged,
      omega (arith, count),
      held,
      λ a.
          w.unreachable
            (λ x low high. let same : gva + length front ≡ x = omega arith in rw same at a),
    )
    go (some (ok bytes, c)) (same, can, got) rest =
        let a = can at (omega arith) (omega arith) in
        rw (same, got)
          (elim (Bool-cases (ctx.memory (host_of ctx at) == 0)) [
            | inl nul ↦ rw nul (
              refl,
              record {
                short = omega (arith, count);
                text = held;
                nul_readable = rw here at a;
                nul = rw (← here) (ground arith);
              },
            )
            | inr more ↦ rw more (rest a (ground arith))
          ])
