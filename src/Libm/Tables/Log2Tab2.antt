-- ===== src/Libm/Tables/Log2Tab2.antt =====
-- `tab2` of `__log2_data` in libm/src/musl/log2_data.c: 64 pairs of `chi` and `clo`.
use wasm_cxx_shim.Prelude.{ℕ, List, ◌∷◌, []}

abbrev pub log2_tab2 : List ℕ
log2_tab2 =
    0x3fe6200012b90a8e ∷ 0x3c8904ab0644b605 ∷ 0x3fe66000045734a6 ∷ 0x3c61ff9bea62f7a9
    ∷ 0x3fe69fffc325f2c5 ∷ 0x3c827ecfcb3c90ba ∷ 0x3fe6e00038b95a04 ∷ 0x3c88ff8856739326
    ∷ 0x3fe71fffe09994e3 ∷ 0x3c8afd40275f82b1 ∷ 0x3fe7600015590e10 ∷ 0xbc72fd75b4238341
    ∷ 0x3fe7a00012655bd5 ∷ 0x3c7808e67c242b76 ∷ 0x3fe7e0003259e9a6 ∷ 0xbc6208e426f622b7
    ∷ 0x3fe81fffedb4b2d2 ∷ 0xbc8402461ea5c92f ∷ 0x3fe860002dfafcc3 ∷ 0x3c6df7f4a2f29a1f
    ∷ 0x3fe89ffff78c6b50 ∷ 0xbc8e0453094995fd ∷ 0x3fe8e00039671566 ∷ 0xbc8a04f3bec77b45
    ∷ 0x3fe91fffe2bf1745 ∷ 0xbc77fa34400e203c ∷ 0x3fe95fffcc5c9fd1 ∷ 0xbc76ff8005a0695d
    ∷ 0x3fe9a0003bba4767 ∷ 0x3c70f8c4c4ec7e03 ∷ 0x3fe9dfffe7b92da5 ∷ 0x3c8e7fd9478c4602
    ∷ 0x3fea1fffd72efdaf ∷ 0xbc6a0c554dcdae7e ∷ 0x3fea5fffde04ff95 ∷ 0x3c867da98ce9b26b
    ∷ 0x3fea9fffca5e8d2b ∷ 0xbc8284c9b54c13de ∷ 0x3feadfffddad03ea ∷ 0x3c5812c8ea602e3c
    ∷ 0x3feb1ffff10d3d4d ∷ 0xbc8efaddad27789c ∷ 0x3feb5fffce21165a ∷ 0x3c53cb1719c61237
    ∷ 0x3feb9fffd950e674 ∷ 0x3c73f7d94194ce00 ∷ 0x3febe000139ca8af ∷ 0x3c750ac4215d9bc0
    ∷ 0x3fec20005b46df99 ∷ 0x3c6beea653e9c1c9 ∷ 0x3fec600040b9f7ae ∷ 0xbc7c079f274a70d6
    ∷ 0x3feca0006255fd8a ∷ 0xbc7a0b4076e84c1f ∷ 0x3fecdfffd94c095d ∷ 0x3c88f933f99ab5d7
    ∷ 0x3fed1ffff975d6cf ∷ 0xbc582c08665fe1be ∷ 0x3fed5fffa2561c93 ∷ 0xbc7b04289bd295f3
    ∷ 0x3fed9fff9d228b0c ∷ 0x3c870251340fa236 ∷ 0x3fede00065bc7e16 ∷ 0xbc75011e16a4d80c
    ∷ 0x3fee200002f64791 ∷ 0x3c89802f09ef62e0 ∷ 0x3fee600057d7a6d8 ∷ 0xbc7e0b75580cf7fa
    ∷ 0x3feea00027edc00c ∷ 0xbc8c848309459811 ∷ 0x3feee0006cf5cb7c ∷ 0xbc8f8027951576f4
    ∷ 0x3fef2000782b7dcc ∷ 0xbc8f81d97274538f ∷ 0x3fef6000260c450a ∷ 0xbc4071002727ffdc
    ∷ 0x3fef9fffe88cd533 ∷ 0xbc581bdce1fda8b0 ∷ 0x3fefdfffd50f8689 ∷ 0x3c87f91acb918e6e
    ∷ 0x3ff0200004292367 ∷ 0x3c9b7ff365324681 ∷ 0x3ff05fffe3e3d668 ∷ 0x3c86fa08ddae957b
    ∷ 0x3ff0a0000a85a757 ∷ 0xbc57e2de80d3fb91 ∷ 0x3ff0e0001a5f3fcc ∷ 0xbc91823305c5f014
    ∷ 0x3ff11ffff8afbaf5 ∷ 0xbc8bfabb6680bac2 ∷ 0x3ff15fffe54d91ad ∷ 0xbc9d7f121737e7ef
    ∷ 0x3ff1a00011ac36e1 ∷ 0x3c9c000a0516f5ff ∷ 0x3ff1e00019c84248 ∷ 0xbc9082fbe4da5da0
    ∷ 0x3ff220000ffe5e6e ∷ 0xbc88fdd04c9cfb43 ∷ 0x3ff26000269fd891 ∷ 0x3c8cfe2a7994d182
    ∷ 0x3ff2a00029a6e6da ∷ 0xbc700273715e8bc5 ∷ 0x3ff2dfffe0293e39 ∷ 0x3c9b7c39dab2a6f9
    ∷ 0x3ff31ffff7dcf082 ∷ 0x3c7df1336edc5254 ∷ 0x3ff35ffff05a8b60 ∷ 0xbc9e03564ccd31eb
    ∷ 0x3ff3a0002e0eaecc ∷ 0x3c75f0e74bd3a477 ∷ 0x3ff3e000043bb236 ∷ 0x3c9c7dcb149d8833
    ∷ 0x3ff4200002d187ff ∷ 0x3c7e08afcf2d3d28 ∷ 0x3ff460000d387cb1 ∷ 0x3c820837856599a6
    ∷ 0x3ff4a00004569f89 ∷ 0xbc89fa5c904fbcd2 ∷ 0x3ff4e000043543f3 ∷ 0xbc781125ed175329
    ∷ 0x3ff51fffcc027f0f ∷ 0x3c9883d8847754dc ∷ 0x3ff55ffffd87b36f ∷ 0xbc8709e731d02807
    ∷ 0x3ff59ffff21df7ba ∷ 0x3c87f79f68727b02 ∷ 0x3ff5dfffebfc3481 ∷ 0xbc9180902e30e93e ∷ []
