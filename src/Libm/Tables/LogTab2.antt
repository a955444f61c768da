-- ===== src/Libm/Tables/LogTab2.antt =====
-- `tab2` of `__log_data` in libm/src/musl/log_data.c: 128 pairs of `chi` and `clo`.
use wasm_cxx_shim.Prelude.{ℕ, List, ◌∷◌, []}

abbrev pub log_tab2 : List ℕ
log_tab2 =
    0x3fe61000014fb66b ∷ 0x3c7e026c91425b3c ∷ 0x3fe63000034db495 ∷ 0x3c8dbfea48005d41
    ∷ 0x3fe650000d94d478 ∷ 0x3c8e7fa786d6a5b7 ∷ 0x3fe67000074e6fad ∷ 0x3c61fcea6b54254c
    ∷ 0x3fe68ffffedf0fae ∷ 0xbc7c7e274c590efd ∷ 0x3fe6b0000763c5bc ∷ 0xbc8ac16848dcda01
    ∷ 0x3fe6d0001e5cc1f6 ∷ 0x3c833f1c9d499311 ∷ 0x3fe6efffeb05f63e ∷ 0xbc7e80041ae22d53
    ∷ 0x3fe710000e869780 ∷ 0x3c7bff6671097952 ∷ 0x3fe72ffffc67e912 ∷ 0x3c8c00e226bd8724
    ∷ 0x3fe74fffdf81116a ∷ 0xbc6e02916ef101d2 ∷ 0x3fe770000f679c90 ∷ 0xbc67fc71cd549c74
    ∷ 0x3fe78ffffa7ec835 ∷ 0x3c81bec19ef50483 ∷ 0x3fe7affffe20c2e6 ∷ 0xbc707e1729cc6465
    ∷ 0x3fe7cfffed3fc900 ∷ 0xbc808072087b8b1c ∷ 0x3fe7efffe9261a76 ∷ 0x3c8dc0286d9df9ae
    ∷ 0x3fe81000049ca3e8 ∷ 0x3c897fd251e54c33 ∷ 0x3fe8300017932c8f ∷ 0xbc8afee9b630f381
    ∷ 0x3fe850000633739c ∷ 0x3c89bfbf6b6535bc ∷ 0x3fe87000204289c6 ∷ 0xbc8bbf65f3117b75
    ∷ 0x3fe88fffebf57904 ∷ 0xbc89006ea23dcb57 ∷ 0x3fe8b00022bc04df ∷ 0xbc7d00df38e04b0a
    ∷ 0x3fe8cfffe50c1b8a ∷ 0xbc88007146ff9f05 ∷ 0x3fe8effffc918e43 ∷ 0x3c83817bd07a7038
    ∷ 0x3fe910001efa5fc7 ∷ 0x3c893e9176dfb403 ∷ 0x3fe9300013467bb9 ∷ 0x3c7f804e4b980276
    ∷ 0x3fe94fffe6ee076f ∷ 0xbc8f7ef0d9ff622e ∷ 0x3fe96fffde3c12d1 ∷ 0xbc7082aa962638ba
    ∷ 0x3fe98ffff4458a0d ∷ 0xbc87801b9164a8ef ∷ 0x3fe9afffdd982e3e ∷ 0xbc8740e08a5a9337
    ∷ 0x3fe9cfffed49fb66 ∷ 0x3c3fce08c19be000 ∷ 0x3fe9f00020f19c51 ∷ 0xbc8a3faa27885b0a
    ∷ 0x3fea10001145b006 ∷ 0x3c74ff489958da56 ∷ 0x3fea300007bbf6fa ∷ 0x3c8cbeab8a2b6d18
    ∷ 0x3fea500010971d79 ∷ 0x3c88fecadd787930 ∷ 0x3fea70001df52e48 ∷ 0xbc8f41763dd8abdb
    ∷ 0x3fea90001c593352 ∷ 0xbc8ebf0284c27612 ∷ 0x3feab0002a4f3e4b ∷ 0xbc69fd043cff3f5f
    ∷ 0x3feacfffd7ae1ed1 ∷ 0xbc823ee7129070b4 ∷ 0x3feaefffee510478 ∷ 0x3c6a063ee00edea3
    ∷ 0x3feb0fffdb650d5b ∷ 0x3c5a06c8381f0ab9 ∷ 0x3feb2ffffeaaca57 ∷ 0xbc79011e74233c1d
    ∷ 0x3feb4fffd995badc ∷ 0xbc79ff1068862a9f ∷ 0x3feb7000249e659c ∷ 0x3c8aff45d0864f3e
    ∷ 0x3feb8ffff9871640 ∷ 0x3c7cfe7796c2c3f9 ∷ 0x3febafffd204cb4f ∷ 0xbc63ff27eef22bc4
    ∷ 0x3febcfffd2415c45 ∷ 0xbc6cffb7ee3bea21 ∷ 0x3febeffff86309df ∷ 0xbc814103972e0b5c
    ∷ 0x3fec0fffe1b57653 ∷ 0x3c8bc16494b76a19 ∷ 0x3fec2ffff1fa57e3 ∷ 0xbc64feef8d30c6ed
    ∷ 0x3fec4fffdcbfe424 ∷ 0xbc843f68bcec4775 ∷ 0x3fec6fffed54b9f7 ∷ 0x3c847ea3f053e0ec
    ∷ 0x3fec8fffeb998fd5 ∷ 0x3c7383068df992f1 ∷ 0x3fecb0002125219a ∷ 0xbc68fd8e64180e04
    ∷ 0x3feccfffdd94469c ∷ 0x3c8e7ebe1cc7ea72 ∷ 0x3fecefffeafdc476 ∷ 0x3c8ebe39ad9f88fe
    ∷ 0x3fed1000169af82b ∷ 0x3c757d91a8b95a71 ∷ 0x3fed30000d0ff71d ∷ 0x3c89c1906970c7da
    ∷ 0x3fed4fffea790fc4 ∷ 0xbc580e37c558fe0c ∷ 0x3fed70002edc87e5 ∷ 0xbc7f80d64dc10f44
    ∷ 0x3fed900021dc82aa ∷ 0xbc747c8f94fd5c5c ∷ 0x3fedafffd86b0283 ∷ 0x3c8c7f1dc521617e
    ∷ 0x3fedd000296c4739 ∷ 0x3c88019eb2ffb153 ∷ 0x3fedefffe54490f5 ∷ 0x3c6e00d2c652cc89
    ∷ 0x3fee0fffcdabf694 ∷ 0xbc7f8340202d69d2 ∷ 0x3fee2fffdb52c8dd ∷ 0x3c7b00c1ca1b0864
    ∷ 0x3fee4ffff24216ef ∷ 0x3c72ffa8b094ab51 ∷ 0x3fee6fffe88a5e11 ∷ 0xbc57f673b1efbe59
    ∷ 0x3fee9000119eff0d ∷ 0xbc84808d5e0bc801 ∷ 0x3feeafffdfa51744 ∷ 0x3c780006d54320b5
    ∷ 0x3feed0001a127fa1 ∷ 0xbc5002f860565c92 ∷ 0x3feef00007babcc4 ∷ 0xbc8540445d35e611
    ∷ 0x3fef0ffff57a8d02 ∷ 0xbc4ffb3139ef9105 ∷ 0x3fef30001ee58ac7 ∷ 0x3c8a81acf2731155
    ∷ 0x3fef4ffff5823494 ∷ 0x3c8a3f41d4d7c743 ∷ 0x3fef6ffffca94c6b ∷ 0xbc6202f41c987875
    ∷ 0x3fef8fffe1f9c441 ∷ 0x3c777dd1f477e74b ∷ 0x3fefafffd2e0e37e ∷ 0xbc6f01199a7ca331
    ∷ 0x3fefd0001c77e49e ∷ 0x3c7181ee4bceacb1 ∷ 0x3fefeffff7e0c331 ∷ 0xbc6e05370170875a
    ∷ 0x3ff00ffff465606e ∷ 0xbc8a7ead491c0ada ∷ 0x3ff02ffff3867a58 ∷ 0xbc977f69c3fcb2e0
    ∷ 0x3ff04ffffdfc0d17 ∷ 0x3c97bffe34cb945b ∷ 0x3ff0700003cd4d82 ∷ 0x3c820083c0e456cb
    ∷ 0x3ff08ffff9f2cbe8 ∷ 0xbc6dffdfbe37751a ∷ 0x3ff0b000010cda65 ∷ 0xbc913f7faee626eb
    ∷ 0x3ff0d00001a4d338 ∷ 0x3c807dfa79489ff7 ∷ 0x3ff0effffadafdfd ∷ 0xbc77040570d66bc0
    ∷ 0x3ff110000bbafd96 ∷ 0x3c8e80d4846d0b62 ∷ 0x3ff12ffffae5f45d ∷ 0x3c9dbffa64fd36ef
    ∷ 0x3ff150000dd59ad9 ∷ 0x3c9a0077701250ae ∷ 0x3ff170000f21559a ∷ 0x3c8dfdf9e2e3deee
    ∷ 0x3ff18ffffc275426 ∷ 0x3c910030dc3b7273 ∷ 0x3ff1b000123d3c59 ∷ 0x3c997f7980030188
    ∷ 0x3ff1cffff8299eb7 ∷ 0xbc65f932ab9f8c67 ∷ 0x3ff1effff48ad400 ∷ 0x3c937fbf9da75beb
    ∷ 0x3ff210000c8b86a4 ∷ 0x3c9f806b91fd5b22 ∷ 0x3ff2300003854303 ∷ 0x3c93ffc2eb9fbf33
    ∷ 0x3ff24fffffbcf684 ∷ 0x3c7601e77e2e2e72 ∷ 0x3ff26ffff52921d9 ∷ 0x3c7ffcbb767f0c61
    ∷ 0x3ff2900014933a3c ∷ 0xbc7202ca3c02412b ∷ 0x3ff2b00014556313 ∷ 0xbc92808233f21f02
    ∷ 0x3ff2cfffebfe523b ∷ 0xbc88ff7e384fdcf2 ∷ 0x3ff2f0000bb8ad96 ∷ 0xbc85ff51503041c5
    ∷ 0x3ff30ffffb7ae2af ∷ 0xbc810071885e289d ∷ 0x3ff32ffffeac5f7f ∷ 0xbc91ff5d3fb7b715
    ∷ 0x3ff350000ca66756 ∷ 0x3c957f82228b82bd ∷ 0x3ff3700011fbf721 ∷ 0x3c8000bac40dd5cc
    ∷ 0x3ff38ffff9592fb9 ∷ 0xbc943f9d2db2a751 ∷ 0x3ff3b00004ddd242 ∷ 0x3c857f6b707638e1
    ∷ 0x3ff3cffff5b2c957 ∷ 0x3c7a023a10bf1231 ∷ 0x3ff3efffeab0b418 ∷ 0x3c987f6d66b152b0
    ∷ 0x3ff410001532aff4 ∷ 0x3c67f8375f198524 ∷ 0x3ff4300017478b29 ∷ 0x3c8301e672dc5143
    ∷ 0x3ff44fffe795b463 ∷ 0x3c89ff69b8b2895a ∷ 0x3ff46fffe80475e0 ∷ 0xbc95c0b19bc2f254
    ∷ 0x3ff48fffef6fc1e7 ∷ 0x3c9b4009f23a2a72 ∷ 0x3ff4afffe5bea704 ∷ 0xbc94ffb7bf0d7d45
    ∷ 0x3ff4d000171027de ∷ 0xbc99c06471dc6a3d ∷ 0x3ff4f0000ff03ee2 ∷ 0x3c977f890b85531c
    ∷ 0x3ff5100012dc4bd1 ∷ 0x3c6004657166a436 ∷ 0x3ff530001605277a ∷ 0xbc96bfcece233209
    ∷ 0x3ff54fffecdb704c ∷ 0xbc8902720505a1d7 ∷ 0x3ff56fffef5f54a9 ∷ 0x3c9bbfe60ec96412
    ∷ 0x3ff5900017e61012 ∷ 0x3c887ec581afef90 ∷ 0x3ff5b00003c93e92 ∷ 0xbc9f41080abf0cc0
    ∷ 0x3ff5d0001d4919bc ∷ 0xbc98812afb254729 ∷ 0x3ff5efffe7b87a89 ∷ 0xbc947eb780ed6904 ∷ []
