-- ===== src/PyModule/Laws.antt =====
-- What `__dlpack__` and `device_info` return.
use metal_runtime.Common.{
  ◌≡◌, ◌≢◌, ◌↔◌, ◌⊎◌, inl, inr, refl, sym, ap, arith, Bool, true, false, Option, none, some,
}
use metal_runtime.Common.Int.{ℤ, pos, negsuc}
use metal_runtime.Errors.{
  ok, ◌>>◌, throw_if, throw_if-eq-ok, ok-injective, dlpack_stream, dlpack_device, dlpack_copy,
}
use metal_runtime.PyBuffer.{HostArray, PyBuffer, to_dlpack_ndarray, view}
use metal_runtime.PyModule.{
  DlDevice, device_none, other_object, device_pair, cpu_device, DlpackArguments, is_cpu,
  is_other_device, value_or_false, dlpack,
}

is_cpu_iff : (m n : ℤ) → (is_cpu m n ≡ true) ↔ (device_pair m n ≡ cpu_device)
is_cpu_iff (pos m) (pos n) = (
  λ h.
      let first : m ≡ 1 = ground arith in
      let second : n ≡ 0 = ground arith in λ i. device_pair (pos (first i)) (pos (second i)),
  λ h. ground arith,
)
is_cpu_iff (pos m) (negsuc n) = (λ h. cc, λ h. cc)
is_cpu_iff (negsuc m) n = (λ h. cc, λ h. cc)

is_other_device_iff :
    (d : DlDevice) → (is_other_device d ≡ false) ↔ ((d ≡ device_none) ⊎ (d ≡ cpu_device))
unfolding is_other_device
is_other_device_iff device_none = (λ h. inl refl, λ h. refl)
is_other_device_iff other_object = (λ h. cc, λ h. elim h [ inl e ↦ cc | inr e ↦ cc ])
is_other_device_iff (device_pair m n) = (
  λ h. inr ((is_cpu_iff m n).0 (ground arith)),
  λ h. elim h [ inl e ↦ cc | inr e ↦ let cpu = (is_cpu_iff m n).1 e in rw cpu refl ],
)

value_or_false_iff : (copy : Option Bool) → (value_or_false copy ≡ false) ↔ (copy ≢ some true)
unfolding value_or_false
value_or_false_iff none = (λ h e. cc, λ h. refl)
value_or_false_iff (some true) = (λ h. cc, λ h. absurd (h refl))
value_or_false_iff (some false) = (λ h e. cc, λ h. refl)

-- `__dlpack__` returns exactly when no stream is given, the device is left out or is the pair that
-- `__dlpack_device__` reports, and no copy is asked for. The array is a view of the buffer's memory
-- under its own dtype and shape.
pub dlpack_iff :
    (b : PyBuffer) (a : DlpackArguments) (array : HostArray)
    → (dlpack b a ≡ ok array) ↔ (
        (a.stream ≡ false)
        × ((a.dl_device ≡ device_none) ⊎ (a.dl_device ≡ cpu_device))
        × (a.copy ≢ some true)
        × (array ≡ view b.contents b.shape b.dtype))
unfolding dlpack to_dlpack_ndarray
dlpack_iff b a array =
    let done : HostArray = to_dlpack_ndarray b in
    (
      λ h.
          let (streamless, h2) =
            throw_if-eq-ok a.stream dlpack_stream
              (throw_if (is_other_device a.dl_device) dlpack_device
                >> (throw_if (value_or_false a.copy) dlpack_copy >> ok done))
              h in
          let (here, h3) =
            throw_if-eq-ok (is_other_device a.dl_device) dlpack_device
              (throw_if (value_or_false a.copy) dlpack_copy >> ok done) h2 in
          let (uncopied, h4) = throw_if-eq-ok (value_or_false a.copy) dlpack_copy (ok done) h3 in
          (
            streamless,
            (is_other_device_iff a.dl_device).0 here,
            (value_or_false_iff a.copy).0 uncopied,
            sym (ok-injective h4),
          ),
      λ h.
          let (streamless, here, uncopied, is) = h in
          rw
            (
              streamless,
              (is_other_device_iff a.dl_device).1 here,
              (value_or_false_iff a.copy).1 uncopied,
            )
            (ap ok (sym is)),
    )
