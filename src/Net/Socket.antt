-- ===== src/Net/Socket.antt =====
-- include/esp32emu_socket.h, and the loops over `send` and `recv` of src/webserver.cpp and
-- src/wificlient.cpp. What the system's calls return is an argument, one value for each call.
use esp32emu.Base.{
  ℕ, zero, suc, ◌+◌, ◌≡◌, refl, sym, ap, ◌∙◌, List, [], ◌∷◌, ◌++◌, arith, take, drop,
}

-- A call of `send`: the bytes it took, at most those offered; or `EINTR`; or another failure. Results that
-- are used up stand for a broken connection.
pub data Sent : Type 0 where
  took : ℕ → Sent
  interrupted broken : Sent

-- The loop `while (off < size)`: the bytes that were sent, and the results that are left.
unfoldable pub send_all : List Sent → List ℕ → List ℕ × List Sent
send_all rs [] = ([], rs)
send_all [] (b ∷ buf) = ([], [])
send_all (interrupted ∷ rs) (b ∷ buf) = send_all rs (b ∷ buf)
send_all (broken ∷ rs) (b ∷ buf) = ([], rs)
send_all (took zero ∷ rs) (b ∷ buf) = ([], rs)
send_all (took (suc n) ∷ rs) (b ∷ buf) =
    let (out, left) = send_all rs (drop n buf) in (b ∷ take n buf ++ out, left)

-- What the calls can take between them, up to the first that fails.
unfoldable pub capacity : List Sent → ℕ
capacity [] = 0
capacity (interrupted ∷ rs) = capacity rs
capacity (broken ∷ rs) = 0
capacity (took zero ∷ rs) = 0
capacity (took (suc n) ∷ rs) = suc (n + capacity rs)

take-nil {ℓ} : {A : Type ℓ} (k : ℕ) → take {A = A} k [] ≡ []
take-nil zero = refl
take-nil (suc k) = refl

take-add {ℓ} :
    {A : Type ℓ} (n k : ℕ) (xs : List A) → take n xs ++ take k (drop n xs) ≡ take (n + k) xs
take-add zero k xs = let e : k ≡ 0 + k = omega arith in ap (λ (m : ℕ). take m xs) e
take-add (suc n) k [] = take-nil k ∙ sym (take-nil (suc n + k))
take-add (suc n) k (x ∷ xs) =
    let e : suc (n + k) ≡ suc n + k = omega arith in
    ap (◌∷◌ x) (take-add n k xs) ∙ ap (λ (m : ℕ). take m (x ∷ xs)) e

-- However the system splits a buffer, the bytes sent are its first ones, in order, as many as the
-- calls take between them, interrupted calls being made again.
pub send_all_lem : (rs : List Sent) (buf : List ℕ) → (send_all rs buf).0 ≡ take (capacity rs) buf
unfolding send_all capacity
send_all_lem [] [] = refl
send_all_lem [] (b ∷ buf) = refl
send_all_lem (interrupted ∷ rs) [] = sym (take-nil (capacity rs))
send_all_lem (interrupted ∷ rs) (b ∷ buf) = send_all_lem rs (b ∷ buf)
send_all_lem (broken ∷ rs) [] = refl
send_all_lem (broken ∷ rs) (b ∷ buf) = refl
send_all_lem (took zero ∷ rs) [] = refl
send_all_lem (took zero ∷ rs) (b ∷ buf) = refl
send_all_lem (took (suc n) ∷ rs) [] = refl
send_all_lem (took (suc n) ∷ rs) (b ∷ buf) =
    ap (λ t. b ∷ take n buf ++ t) (send_all_lem rs (drop n buf))
    ∙ ap (◌∷◌ b) (take-add n (capacity rs) buf)
