-- ===== src/Checksum/Tables.antt =====
-- `crc32_table_multi` of libhdk/checksum.cpp: four rows of 256 words, for slicing by four.
use Prim.Native.Nat.{ℕ}
use mathlib.Core.List.{List, [], ◌∷◌}

unfoldable pub crc32_table_multi_0 : List ℕ
crc32_table_multi_0 =
    0x0000_0000 ∷ 0x7707_3096 ∷ 0xee0e_612c ∷ 0x9909_51ba ∷ 0x076d_c419 ∷ 0x706a_f48f ∷ 0xe963_a535
    ∷ 0x9e64_95a3 ∷ 0x0edb_8832 ∷ 0x79dc_b8a4 ∷ 0xe0d5_e91e ∷ 0x97d2_d988 ∷ 0x09b6_4c2b
    ∷ 0x7eb1_7cbd ∷ 0xe7b8_2d07 ∷ 0x90bf_1d91 ∷ 0x1db7_1064 ∷ 0x6ab0_20f2 ∷ 0xf3b9_7148
    ∷ 0x84be_41de ∷ 0x1ada_d47d ∷ 0x6ddd_e4eb ∷ 0xf4d4_b551 ∷ 0x83d3_85c7 ∷ 0x136c_9856
    ∷ 0x646b_a8c0 ∷ 0xfd62_f97a ∷ 0x8a65_c9ec ∷ 0x1401_5c4f ∷ 0x6306_6cd9 ∷ 0xfa0f_3d63
    ∷ 0x8d08_0df5 ∷ 0x3b6e_20c8 ∷ 0x4c69_105e ∷ 0xd560_41e4 ∷ 0xa267_7172 ∷ 0x3c03_e4d1
    ∷ 0x4b04_d447 ∷ 0xd20d_85fd ∷ 0xa50a_b56b ∷ 0x35b5_a8fa ∷ 0x42b2_986c ∷ 0xdbbb_c9d6
    ∷ 0xacbc_f940 ∷ 0x32d8_6ce3 ∷ 0x45df_5c75 ∷ 0xdcd6_0dcf ∷ 0xabd1_3d59 ∷ 0x26d9_30ac
    ∷ 0x51de_003a ∷ 0xc8d7_5180 ∷ 0xbfd0_6116 ∷ 0x21b4_f4b5 ∷ 0x56b3_c423 ∷ 0xcfba_9599
    ∷ 0xb8bd_a50f ∷ 0x2802_b89e ∷ 0x5f05_8808 ∷ 0xc60c_d9b2 ∷ 0xb10b_e924 ∷ 0x2f6f_7c87
    ∷ 0x5868_4c11 ∷ 0xc161_1dab ∷ 0xb666_2d3d ∷ 0x76dc_4190 ∷ 0x01db_7106 ∷ 0x98d2_20bc
    ∷ 0xefd5_102a ∷ 0x71b1_8589 ∷ 0x06b6_b51f ∷ 0x9fbf_e4a5 ∷ 0xe8b8_d433 ∷ 0x7807_c9a2
    ∷ 0x0f00_f934 ∷ 0x9609_a88e ∷ 0xe10e_9818 ∷ 0x7f6a_0dbb ∷ 0x086d_3d2d ∷ 0x9164_6c97
    ∷ 0xe663_5c01 ∷ 0x6b6b_51f4 ∷ 0x1c6c_6162 ∷ 0x8565_30d8 ∷ 0xf262_004e ∷ 0x6c06_95ed
    ∷ 0x1b01_a57b ∷ 0x8208_f4c1 ∷ 0xf50f_c457 ∷ 0x65b0_d9c6 ∷ 0x12b7_e950 ∷ 0x8bbe_b8ea
    ∷ 0xfcb9_887c ∷ 0x62dd_1ddf ∷ 0x15da_2d49 ∷ 0x8cd3_7cf3 ∷ 0xfbd4_4c65 ∷ 0x4db2_6158
    ∷ 0x3ab5_51ce ∷ 0xa3bc_0074 ∷ 0xd4bb_30e2 ∷ 0x4adf_a541 ∷ 0x3dd8_95d7 ∷ 0xa4d1_c46d
    ∷ 0xd3d6_f4fb ∷ 0x4369_e96a ∷ 0x346e_d9fc ∷ 0xad67_8846 ∷ 0xda60_b8d0 ∷ 0x4404_2d73
    ∷ 0x3303_1de5 ∷ 0xaa0a_4c5f ∷ 0xdd0d_7cc9 ∷ 0x5005_713c ∷ 0x2702_41aa ∷ 0xbe0b_1010
    ∷ 0xc90c_2086 ∷ 0x5768_b525 ∷ 0x206f_85b3 ∷ 0xb966_d409 ∷ 0xce61_e49f ∷ 0x5ede_f90e
    ∷ 0x29d9_c998 ∷ 0xb0d0_9822 ∷ 0xc7d7_a8b4 ∷ 0x59b3_3d17 ∷ 0x2eb4_0d81 ∷ 0xb7bd_5c3b
    ∷ 0xc0ba_6cad ∷ 0xedb8_8320 ∷ 0x9abf_b3b6 ∷ 0x03b6_e20c ∷ 0x74b1_d29a ∷ 0xead5_4739
    ∷ 0x9dd2_77af ∷ 0x04db_2615 ∷ 0x73dc_1683 ∷ 0xe363_0b12 ∷ 0x9464_3b84 ∷ 0x0d6d_6a3e
    ∷ 0x7a6a_5aa8 ∷ 0xe40e_cf0b ∷ 0x9309_ff9d ∷ 0x0a00_ae27 ∷ 0x7d07_9eb1 ∷ 0xf00f_9344
    ∷ 0x8708_a3d2 ∷ 0x1e01_f268 ∷ 0x6906_c2fe ∷ 0xf762_575d ∷ 0x8065_67cb ∷ 0x196c_3671
    ∷ 0x6e6b_06e7 ∷ 0xfed4_1b76 ∷ 0x89d3_2be0 ∷ 0x10da_7a5a ∷ 0x67dd_4acc ∷ 0xf9b9_df6f
    ∷ 0x8ebe_eff9 ∷ 0x17b7_be43 ∷ 0x60b0_8ed5 ∷ 0xd6d6_a3e8 ∷ 0xa1d1_937e ∷ 0x38d8_c2c4
    ∷ 0x4fdf_f252 ∷ 0xd1bb_67f1 ∷ 0xa6bc_5767 ∷ 0x3fb5_06dd ∷ 0x48b2_364b ∷ 0xd80d_2bda
    ∷ 0xaf0a_1b4c ∷ 0x3603_4af6 ∷ 0x4104_7a60 ∷ 0xdf60_efc3 ∷ 0xa867_df55 ∷ 0x316e_8eef
    ∷ 0x4669_be79 ∷ 0xcb61_b38c ∷ 0xbc66_831a ∷ 0x256f_d2a0 ∷ 0x5268_e236 ∷ 0xcc0c_7795
    ∷ 0xbb0b_4703 ∷ 0x2202_16b9 ∷ 0x5505_262f ∷ 0xc5ba_3bbe ∷ 0xb2bd_0b28 ∷ 0x2bb4_5a92
    ∷ 0x5cb3_6a04 ∷ 0xc2d7_ffa7 ∷ 0xb5d0_cf31 ∷ 0x2cd9_9e8b ∷ 0x5bde_ae1d ∷ 0x9b64_c2b0
    ∷ 0xec63_f226 ∷ 0x756a_a39c ∷ 0x026d_930a ∷ 0x9c09_06a9 ∷ 0xeb0e_363f ∷ 0x7207_6785
    ∷ 0x0500_5713 ∷ 0x95bf_4a82 ∷ 0xe2b8_7a14 ∷ 0x7bb1_2bae ∷ 0x0cb6_1b38 ∷ 0x92d2_8e9b
    ∷ 0xe5d5_be0d ∷ 0x7cdc_efb7 ∷ 0x0bdb_df21 ∷ 0x86d3_d2d4 ∷ 0xf1d4_e242 ∷ 0x68dd_b3f8
    ∷ 0x1fda_836e ∷ 0x81be_16cd ∷ 0xf6b9_265b ∷ 0x6fb0_77e1 ∷ 0x18b7_4777 ∷ 0x8808_5ae6
    ∷ 0xff0f_6a70 ∷ 0x6606_3bca ∷ 0x1101_0b5c ∷ 0x8f65_9eff ∷ 0xf862_ae69 ∷ 0x616b_ffd3
    ∷ 0x166c_cf45 ∷ 0xa00a_e278 ∷ 0xd70d_d2ee ∷ 0x4e04_8354 ∷ 0x3903_b3c2 ∷ 0xa767_2661
    ∷ 0xd060_16f7 ∷ 0x4969_474d ∷ 0x3e6e_77db ∷ 0xaed1_6a4a ∷ 0xd9d6_5adc ∷ 0x40df_0b66
    ∷ 0x37d8_3bf0 ∷ 0xa9bc_ae53 ∷ 0xdebb_9ec5 ∷ 0x47b2_cf7f ∷ 0x30b5_ffe9 ∷ 0xbdbd_f21c
    ∷ 0xcaba_c28a ∷ 0x53b3_9330 ∷ 0x24b4_a3a6 ∷ 0xbad0_3605 ∷ 0xcdd7_0693 ∷ 0x54de_5729
    ∷ 0x23d9_67bf ∷ 0xb366_7a2e ∷ 0xc461_4ab8 ∷ 0x5d68_1b02 ∷ 0x2a6f_2b94 ∷ 0xb40b_be37
    ∷ 0xc30c_8ea1 ∷ 0x5a05_df1b ∷ 0x2d02_ef8d ∷ []

unfoldable pub crc32_table_multi_1 : List ℕ
crc32_table_multi_1 =
    0x0000_0000 ∷ 0x191b_3141 ∷ 0x3236_6282 ∷ 0x2b2d_53c3 ∷ 0x646c_c504 ∷ 0x7d77_f445 ∷ 0x565a_a786
    ∷ 0x4f41_96c7 ∷ 0xc8d9_8a08 ∷ 0xd1c2_bb49 ∷ 0xfaef_e88a ∷ 0xe3f4_d9cb ∷ 0xacb5_4f0c
    ∷ 0xb5ae_7e4d ∷ 0x9e83_2d8e ∷ 0x8798_1ccf ∷ 0x4ac2_1251 ∷ 0x53d9_2310 ∷ 0x78f4_70d3
    ∷ 0x61ef_4192 ∷ 0x2eae_d755 ∷ 0x37b5_e614 ∷ 0x1c98_b5d7 ∷ 0x0583_8496 ∷ 0x821b_9859
    ∷ 0x9b00_a918 ∷ 0xb02d_fadb ∷ 0xa936_cb9a ∷ 0xe677_5d5d ∷ 0xff6c_6c1c ∷ 0xd441_3fdf
    ∷ 0xcd5a_0e9e ∷ 0x9584_24a2 ∷ 0x8c9f_15e3 ∷ 0xa7b2_4620 ∷ 0xbea9_7761 ∷ 0xf1e8_e1a6
    ∷ 0xe8f3_d0e7 ∷ 0xc3de_8324 ∷ 0xdac5_b265 ∷ 0x5d5d_aeaa ∷ 0x4446_9feb ∷ 0x6f6b_cc28
    ∷ 0x7670_fd69 ∷ 0x3931_6bae ∷ 0x202a_5aef ∷ 0x0b07_092c ∷ 0x121c_386d ∷ 0xdf46_36f3
    ∷ 0xc65d_07b2 ∷ 0xed70_5471 ∷ 0xf46b_6530 ∷ 0xbb2a_f3f7 ∷ 0xa231_c2b6 ∷ 0x891c_9175
    ∷ 0x9007_a034 ∷ 0x179f_bcfb ∷ 0x0e84_8dba ∷ 0x25a9_de79 ∷ 0x3cb2_ef38 ∷ 0x73f3_79ff
    ∷ 0x6ae8_48be ∷ 0x41c5_1b7d ∷ 0x58de_2a3c ∷ 0xf079_4f05 ∷ 0xe962_7e44 ∷ 0xc24f_2d87
    ∷ 0xdb54_1cc6 ∷ 0x9415_8a01 ∷ 0x8d0e_bb40 ∷ 0xa623_e883 ∷ 0xbf38_d9c2 ∷ 0x38a0_c50d
    ∷ 0x21bb_f44c ∷ 0x0a96_a78f ∷ 0x138d_96ce ∷ 0x5ccc_0009 ∷ 0x45d7_3148 ∷ 0x6efa_628b
    ∷ 0x77e1_53ca ∷ 0xbabb_5d54 ∷ 0xa3a0_6c15 ∷ 0x888d_3fd6 ∷ 0x9196_0e97 ∷ 0xded7_9850
    ∷ 0xc7cc_a911 ∷ 0xece1_fad2 ∷ 0xf5fa_cb93 ∷ 0x7262_d75c ∷ 0x6b79_e61d ∷ 0x4054_b5de
    ∷ 0x594f_849f ∷ 0x160e_1258 ∷ 0x0f15_2319 ∷ 0x2438_70da ∷ 0x3d23_419b ∷ 0x65fd_6ba7
    ∷ 0x7ce6_5ae6 ∷ 0x57cb_0925 ∷ 0x4ed0_3864 ∷ 0x0191_aea3 ∷ 0x188a_9fe2 ∷ 0x33a7_cc21
    ∷ 0x2abc_fd60 ∷ 0xad24_e1af ∷ 0xb43f_d0ee ∷ 0x9f12_832d ∷ 0x8609_b26c ∷ 0xc948_24ab
    ∷ 0xd053_15ea ∷ 0xfb7e_4629 ∷ 0xe265_7768 ∷ 0x2f3f_79f6 ∷ 0x3624_48b7 ∷ 0x1d09_1b74
    ∷ 0x0412_2a35 ∷ 0x4b53_bcf2 ∷ 0x5248_8db3 ∷ 0x7965_de70 ∷ 0x607e_ef31 ∷ 0xe7e6_f3fe
    ∷ 0xfefd_c2bf ∷ 0xd5d0_917c ∷ 0xcccb_a03d ∷ 0x838a_36fa ∷ 0x9a91_07bb ∷ 0xb1bc_5478
    ∷ 0xa8a7_6539 ∷ 0x3b83_984b ∷ 0x2298_a90a ∷ 0x09b5_fac9 ∷ 0x10ae_cb88 ∷ 0x5fef_5d4f
    ∷ 0x46f4_6c0e ∷ 0x6dd9_3fcd ∷ 0x74c2_0e8c ∷ 0xf35a_1243 ∷ 0xea41_2302 ∷ 0xc16c_70c1
    ∷ 0xd877_4180 ∷ 0x9736_d747 ∷ 0x8e2d_e606 ∷ 0xa500_b5c5 ∷ 0xbc1b_8484 ∷ 0x7141_8a1a
    ∷ 0x685a_bb5b ∷ 0x4377_e898 ∷ 0x5a6c_d9d9 ∷ 0x152d_4f1e ∷ 0x0c36_7e5f ∷ 0x271b_2d9c
    ∷ 0x3e00_1cdd ∷ 0xb998_0012 ∷ 0xa083_3153 ∷ 0x8bae_6290 ∷ 0x92b5_53d1 ∷ 0xddf4_c516
    ∷ 0xc4ef_f457 ∷ 0xefc2_a794 ∷ 0xf6d9_96d5 ∷ 0xae07_bce9 ∷ 0xb71c_8da8 ∷ 0x9c31_de6b
    ∷ 0x852a_ef2a ∷ 0xca6b_79ed ∷ 0xd370_48ac ∷ 0xf85d_1b6f ∷ 0xe146_2a2e ∷ 0x66de_36e1
    ∷ 0x7fc5_07a0 ∷ 0x54e8_5463 ∷ 0x4df3_6522 ∷ 0x02b2_f3e5 ∷ 0x1ba9_c2a4 ∷ 0x3084_9167
    ∷ 0x299f_a026 ∷ 0xe4c5_aeb8 ∷ 0xfdde_9ff9 ∷ 0xd6f3_cc3a ∷ 0xcfe8_fd7b ∷ 0x80a9_6bbc
    ∷ 0x99b2_5afd ∷ 0xb29f_093e ∷ 0xab84_387f ∷ 0x2c1c_24b0 ∷ 0x3507_15f1 ∷ 0x1e2a_4632
    ∷ 0x0731_7773 ∷ 0x4870_e1b4 ∷ 0x516b_d0f5 ∷ 0x7a46_8336 ∷ 0x635d_b277 ∷ 0xcbfa_d74e
    ∷ 0xd2e1_e60f ∷ 0xf9cc_b5cc ∷ 0xe0d7_848d ∷ 0xaf96_124a ∷ 0xb68d_230b ∷ 0x9da0_70c8
    ∷ 0x84bb_4189 ∷ 0x0323_5d46 ∷ 0x1a38_6c07 ∷ 0x3115_3fc4 ∷ 0x280e_0e85 ∷ 0x674f_9842
    ∷ 0x7e54_a903 ∷ 0x5579_fac0 ∷ 0x4c62_cb81 ∷ 0x8138_c51f ∷ 0x9823_f45e ∷ 0xb30e_a79d
    ∷ 0xaa15_96dc ∷ 0xe554_001b ∷ 0xfc4f_315a ∷ 0xd762_6299 ∷ 0xce79_53d8 ∷ 0x49e1_4f17
    ∷ 0x50fa_7e56 ∷ 0x7bd7_2d95 ∷ 0x62cc_1cd4 ∷ 0x2d8d_8a13 ∷ 0x3496_bb52 ∷ 0x1fbb_e891
    ∷ 0x06a0_d9d0 ∷ 0x5e7e_f3ec ∷ 0x4765_c2ad ∷ 0x6c48_916e ∷ 0x7553_a02f ∷ 0x3a12_36e8
    ∷ 0x2309_07a9 ∷ 0x0824_546a ∷ 0x113f_652b ∷ 0x96a7_79e4 ∷ 0x8fbc_48a5 ∷ 0xa491_1b66
    ∷ 0xbd8a_2a27 ∷ 0xf2cb_bce0 ∷ 0xebd0_8da1 ∷ 0xc0fd_de62 ∷ 0xd9e6_ef23 ∷ 0x14bc_e1bd
    ∷ 0x0da7_d0fc ∷ 0x268a_833f ∷ 0x3f91_b27e ∷ 0x70d0_24b9 ∷ 0x69cb_15f8 ∷ 0x42e6_463b
    ∷ 0x5bfd_777a ∷ 0xdc65_6bb5 ∷ 0xc57e_5af4 ∷ 0xee53_0937 ∷ 0xf748_3876 ∷ 0xb809_aeb1
    ∷ 0xa112_9ff0 ∷ 0x8a3f_cc33 ∷ 0x9324_fd72 ∷ []

unfoldable pub crc32_table_multi_2 : List ℕ
crc32_table_multi_2 =
    0x0000_0000 ∷ 0x01c2_6a37 ∷ 0x0384_d46e ∷ 0x0246_be59 ∷ 0x0709_a8dc ∷ 0x06cb_c2eb ∷ 0x048d_7cb2
    ∷ 0x054f_1685 ∷ 0x0e13_51b8 ∷ 0x0fd1_3b8f ∷ 0x0d97_85d6 ∷ 0x0c55_efe1 ∷ 0x091a_f964
    ∷ 0x08d8_9353 ∷ 0x0a9e_2d0a ∷ 0x0b5c_473d ∷ 0x1c26_a370 ∷ 0x1de4_c947 ∷ 0x1fa2_771e
    ∷ 0x1e60_1d29 ∷ 0x1b2f_0bac ∷ 0x1aed_619b ∷ 0x18ab_dfc2 ∷ 0x1969_b5f5 ∷ 0x1235_f2c8
    ∷ 0x13f7_98ff ∷ 0x11b1_26a6 ∷ 0x1073_4c91 ∷ 0x153c_5a14 ∷ 0x14fe_3023 ∷ 0x16b8_8e7a
    ∷ 0x177a_e44d ∷ 0x384d_46e0 ∷ 0x398f_2cd7 ∷ 0x3bc9_928e ∷ 0x3a0b_f8b9 ∷ 0x3f44_ee3c
    ∷ 0x3e86_840b ∷ 0x3cc0_3a52 ∷ 0x3d02_5065 ∷ 0x365e_1758 ∷ 0x379c_7d6f ∷ 0x35da_c336
    ∷ 0x3418_a901 ∷ 0x3157_bf84 ∷ 0x3095_d5b3 ∷ 0x32d3_6bea ∷ 0x3311_01dd ∷ 0x246b_e590
    ∷ 0x25a9_8fa7 ∷ 0x27ef_31fe ∷ 0x262d_5bc9 ∷ 0x2362_4d4c ∷ 0x22a0_277b ∷ 0x20e6_9922
    ∷ 0x2124_f315 ∷ 0x2a78_b428 ∷ 0x2bba_de1f ∷ 0x29fc_6046 ∷ 0x283e_0a71 ∷ 0x2d71_1cf4
    ∷ 0x2cb3_76c3 ∷ 0x2ef5_c89a ∷ 0x2f37_a2ad ∷ 0x709a_8dc0 ∷ 0x7158_e7f7 ∷ 0x731e_59ae
    ∷ 0x72dc_3399 ∷ 0x7793_251c ∷ 0x7651_4f2b ∷ 0x7417_f172 ∷ 0x75d5_9b45 ∷ 0x7e89_dc78
    ∷ 0x7f4b_b64f ∷ 0x7d0d_0816 ∷ 0x7ccf_6221 ∷ 0x7980_74a4 ∷ 0x7842_1e93 ∷ 0x7a04_a0ca
    ∷ 0x7bc6_cafd ∷ 0x6cbc_2eb0 ∷ 0x6d7e_4487 ∷ 0x6f38_fade ∷ 0x6efa_90e9 ∷ 0x6bb5_866c
    ∷ 0x6a77_ec5b ∷ 0x6831_5202 ∷ 0x69f3_3835 ∷ 0x62af_7f08 ∷ 0x636d_153f ∷ 0x612b_ab66
    ∷ 0x60e9_c151 ∷ 0x65a6_d7d4 ∷ 0x6464_bde3 ∷ 0x6622_03ba ∷ 0x67e0_698d ∷ 0x48d7_cb20
    ∷ 0x4915_a117 ∷ 0x4b53_1f4e ∷ 0x4a91_7579 ∷ 0x4fde_63fc ∷ 0x4e1c_09cb ∷ 0x4c5a_b792
    ∷ 0x4d98_dda5 ∷ 0x46c4_9a98 ∷ 0x4706_f0af ∷ 0x4540_4ef6 ∷ 0x4482_24c1 ∷ 0x41cd_3244
    ∷ 0x400f_5873 ∷ 0x4249_e62a ∷ 0x438b_8c1d ∷ 0x54f1_6850 ∷ 0x5533_0267 ∷ 0x5775_bc3e
    ∷ 0x56b7_d609 ∷ 0x53f8_c08c ∷ 0x523a_aabb ∷ 0x507c_14e2 ∷ 0x51be_7ed5 ∷ 0x5ae2_39e8
    ∷ 0x5b20_53df ∷ 0x5966_ed86 ∷ 0x58a4_87b1 ∷ 0x5deb_9134 ∷ 0x5c29_fb03 ∷ 0x5e6f_455a
    ∷ 0x5fad_2f6d ∷ 0xe135_1b80 ∷ 0xe0f7_71b7 ∷ 0xe2b1_cfee ∷ 0xe373_a5d9 ∷ 0xe63c_b35c
    ∷ 0xe7fe_d96b ∷ 0xe5b8_6732 ∷ 0xe47a_0d05 ∷ 0xef26_4a38 ∷ 0xeee4_200f ∷ 0xeca2_9e56
    ∷ 0xed60_f461 ∷ 0xe82f_e2e4 ∷ 0xe9ed_88d3 ∷ 0xebab_368a ∷ 0xea69_5cbd ∷ 0xfd13_b8f0
    ∷ 0xfcd1_d2c7 ∷ 0xfe97_6c9e ∷ 0xff55_06a9 ∷ 0xfa1a_102c ∷ 0xfbd8_7a1b ∷ 0xf99e_c442
    ∷ 0xf85c_ae75 ∷ 0xf300_e948 ∷ 0xf2c2_837f ∷ 0xf084_3d26 ∷ 0xf146_5711 ∷ 0xf409_4194
    ∷ 0xf5cb_2ba3 ∷ 0xf78d_95fa ∷ 0xf64f_ffcd ∷ 0xd978_5d60 ∷ 0xd8ba_3757 ∷ 0xdafc_890e
    ∷ 0xdb3e_e339 ∷ 0xde71_f5bc ∷ 0xdfb3_9f8b ∷ 0xddf5_21d2 ∷ 0xdc37_4be5 ∷ 0xd76b_0cd8
    ∷ 0xd6a9_66ef ∷ 0xd4ef_d8b6 ∷ 0xd52d_b281 ∷ 0xd062_a404 ∷ 0xd1a0_ce33 ∷ 0xd3e6_706a
    ∷ 0xd224_1a5d ∷ 0xc55e_fe10 ∷ 0xc49c_9427 ∷ 0xc6da_2a7e ∷ 0xc718_4049 ∷ 0xc257_56cc
    ∷ 0xc395_3cfb ∷ 0xc1d3_82a2 ∷ 0xc011_e895 ∷ 0xcb4d_afa8 ∷ 0xca8f_c59f ∷ 0xc8c9_7bc6
    ∷ 0xc90b_11f1 ∷ 0xcc44_0774 ∷ 0xcd86_6d43 ∷ 0xcfc0_d31a ∷ 0xce02_b92d ∷ 0x91af_9640
    ∷ 0x906d_fc77 ∷ 0x922b_422e ∷ 0x93e9_2819 ∷ 0x96a6_3e9c ∷ 0x9764_54ab ∷ 0x9522_eaf2
    ∷ 0x94e0_80c5 ∷ 0x9fbc_c7f8 ∷ 0x9e7e_adcf ∷ 0x9c38_1396 ∷ 0x9dfa_79a1 ∷ 0x98b5_6f24
    ∷ 0x9977_0513 ∷ 0x9b31_bb4a ∷ 0x9af3_d17d ∷ 0x8d89_3530 ∷ 0x8c4b_5f07 ∷ 0x8e0d_e15e
    ∷ 0x8fcf_8b69 ∷ 0x8a80_9dec ∷ 0x8b42_f7db ∷ 0x8904_4982 ∷ 0x88c6_23b5 ∷ 0x839a_6488
    ∷ 0x8258_0ebf ∷ 0x801e_b0e6 ∷ 0x81dc_dad1 ∷ 0x8493_cc54 ∷ 0x8551_a663 ∷ 0x8717_183a
    ∷ 0x86d5_720d ∷ 0xa9e2_d0a0 ∷ 0xa820_ba97 ∷ 0xaa66_04ce ∷ 0xaba4_6ef9 ∷ 0xaeeb_787c
    ∷ 0xaf29_124b ∷ 0xad6f_ac12 ∷ 0xacad_c625 ∷ 0xa7f1_8118 ∷ 0xa633_eb2f ∷ 0xa475_5576
    ∷ 0xa5b7_3f41 ∷ 0xa0f8_29c4 ∷ 0xa13a_43f3 ∷ 0xa37c_fdaa ∷ 0xa2be_979d ∷ 0xb5c4_73d0
    ∷ 0xb406_19e7 ∷ 0xb640_a7be ∷ 0xb782_cd89 ∷ 0xb2cd_db0c ∷ 0xb30f_b13b ∷ 0xb149_0f62
    ∷ 0xb08b_6555 ∷ 0xbbd7_2268 ∷ 0xba15_485f ∷ 0xb853_f606 ∷ 0xb991_9c31 ∷ 0xbcde_8ab4
    ∷ 0xbd1c_e083 ∷ 0xbf5a_5eda ∷ 0xbe98_34ed ∷ []

unfoldable pub crc32_table_multi_3 : List ℕ
crc32_table_multi_3 =
    0x0000_0000 ∷ 0xb8bc_6765 ∷ 0xaa09_c88b ∷ 0x12b5_afee ∷ 0x8f62_9757 ∷ 0x37de_f032 ∷ 0x256b_5fdc
    ∷ 0x9dd7_38b9 ∷ 0xc5b4_28ef ∷ 0x7d08_4f8a ∷ 0x6fbd_e064 ∷ 0xd701_8701 ∷ 0x4ad6_bfb8
    ∷ 0xf26a_d8dd ∷ 0xe0df_7733 ∷ 0x5863_1056 ∷ 0x5019_579f ∷ 0xe8a5_30fa ∷ 0xfa10_9f14
    ∷ 0x42ac_f871 ∷ 0xdf7b_c0c8 ∷ 0x67c7_a7ad ∷ 0x7572_0843 ∷ 0xcdce_6f26 ∷ 0x95ad_7f70
    ∷ 0x2d11_1815 ∷ 0x3fa4_b7fb ∷ 0x8718_d09e ∷ 0x1acf_e827 ∷ 0xa273_8f42 ∷ 0xb0c6_20ac
    ∷ 0x087a_47c9 ∷ 0xa032_af3e ∷ 0x188e_c85b ∷ 0x0a3b_67b5 ∷ 0xb287_00d0 ∷ 0x2f50_3869
    ∷ 0x97ec_5f0c ∷ 0x8559_f0e2 ∷ 0x3de5_9787 ∷ 0x6586_87d1 ∷ 0xdd3a_e0b4 ∷ 0xcf8f_4f5a
    ∷ 0x7733_283f ∷ 0xeae4_1086 ∷ 0x5258_77e3 ∷ 0x40ed_d80d ∷ 0xf851_bf68 ∷ 0xf02b_f8a1
    ∷ 0x4897_9fc4 ∷ 0x5a22_302a ∷ 0xe29e_574f ∷ 0x7f49_6ff6 ∷ 0xc7f5_0893 ∷ 0xd540_a77d
    ∷ 0x6dfc_c018 ∷ 0x359f_d04e ∷ 0x8d23_b72b ∷ 0x9f96_18c5 ∷ 0x272a_7fa0 ∷ 0xbafd_4719
    ∷ 0x0241_207c ∷ 0x10f4_8f92 ∷ 0xa848_e8f7 ∷ 0x9b14_583d ∷ 0x23a8_3f58 ∷ 0x311d_90b6
    ∷ 0x89a1_f7d3 ∷ 0x1476_cf6a ∷ 0xacca_a80f ∷ 0xbe7f_07e1 ∷ 0x06c3_6084 ∷ 0x5ea0_70d2
    ∷ 0xe61c_17b7 ∷ 0xf4a9_b859 ∷ 0x4c15_df3c ∷ 0xd1c2_e785 ∷ 0x697e_80e0 ∷ 0x7bcb_2f0e
    ∷ 0xc377_486b ∷ 0xcb0d_0fa2 ∷ 0x73b1_68c7 ∷ 0x6104_c729 ∷ 0xd9b8_a04c ∷ 0x446f_98f5
    ∷ 0xfcd3_ff90 ∷ 0xee66_507e ∷ 0x56da_371b ∷ 0x0eb9_274d ∷ 0xb605_4028 ∷ 0xa4b0_efc6
    ∷ 0x1c0c_88a3 ∷ 0x81db_b01a ∷ 0x3967_d77f ∷ 0x2bd2_7891 ∷ 0x936e_1ff4 ∷ 0x3b26_f703
    ∷ 0x839a_9066 ∷ 0x912f_3f88 ∷ 0x2993_58ed ∷ 0xb444_6054 ∷ 0x0cf8_0731 ∷ 0x1e4d_a8df
    ∷ 0xa6f1_cfba ∷ 0xfe92_dfec ∷ 0x462e_b889 ∷ 0x549b_1767 ∷ 0xec27_7002 ∷ 0x71f0_48bb
    ∷ 0xc94c_2fde ∷ 0xdbf9_8030 ∷ 0x6345_e755 ∷ 0x6b3f_a09c ∷ 0xd383_c7f9 ∷ 0xc136_6817
    ∷ 0x798a_0f72 ∷ 0xe45d_37cb ∷ 0x5ce1_50ae ∷ 0x4e54_ff40 ∷ 0xf6e8_9825 ∷ 0xae8b_8873
    ∷ 0x1637_ef16 ∷ 0x0482_40f8 ∷ 0xbc3e_279d ∷ 0x21e9_1f24 ∷ 0x9955_7841 ∷ 0x8be0_d7af
    ∷ 0x335c_b0ca ∷ 0xed59_b63b ∷ 0x55e5_d15e ∷ 0x4750_7eb0 ∷ 0xffec_19d5 ∷ 0x623b_216c
    ∷ 0xda87_4609 ∷ 0xc832_e9e7 ∷ 0x708e_8e82 ∷ 0x28ed_9ed4 ∷ 0x9051_f9b1 ∷ 0x82e4_565f
    ∷ 0x3a58_313a ∷ 0xa78f_0983 ∷ 0x1f33_6ee6 ∷ 0x0d86_c108 ∷ 0xb53a_a66d ∷ 0xbd40_e1a4
    ∷ 0x05fc_86c1 ∷ 0x1749_292f ∷ 0xaff5_4e4a ∷ 0x3222_76f3 ∷ 0x8a9e_1196 ∷ 0x982b_be78
    ∷ 0x2097_d91d ∷ 0x78f4_c94b ∷ 0xc048_ae2e ∷ 0xd2fd_01c0 ∷ 0x6a41_66a5 ∷ 0xf796_5e1c
    ∷ 0x4f2a_3979 ∷ 0x5d9f_9697 ∷ 0xe523_f1f2 ∷ 0x4d6b_1905 ∷ 0xf5d7_7e60 ∷ 0xe762_d18e
    ∷ 0x5fde_b6eb ∷ 0xc209_8e52 ∷ 0x7ab5_e937 ∷ 0x6800_46d9 ∷ 0xd0bc_21bc ∷ 0x88df_31ea
    ∷ 0x3063_568f ∷ 0x22d6_f961 ∷ 0x9a6a_9e04 ∷ 0x07bd_a6bd ∷ 0xbf01_c1d8 ∷ 0xadb4_6e36
    ∷ 0x1508_0953 ∷ 0x1d72_4e9a ∷ 0xa5ce_29ff ∷ 0xb77b_8611 ∷ 0x0fc7_e174 ∷ 0x9210_d9cd
    ∷ 0x2aac_bea8 ∷ 0x3819_1146 ∷ 0x80a5_7623 ∷ 0xd8c6_6675 ∷ 0x607a_0110 ∷ 0x72cf_aefe
    ∷ 0xca73_c99b ∷ 0x57a4_f122 ∷ 0xef18_9647 ∷ 0xfdad_39a9 ∷ 0x4511_5ecc ∷ 0x764d_ee06
    ∷ 0xcef1_8963 ∷ 0xdc44_268d ∷ 0x64f8_41e8 ∷ 0xf92f_7951 ∷ 0x4193_1e34 ∷ 0x5326_b1da
    ∷ 0xeb9a_d6bf ∷ 0xb3f9_c6e9 ∷ 0x0b45_a18c ∷ 0x19f0_0e62 ∷ 0xa14c_6907 ∷ 0x3c9b_51be
    ∷ 0x8427_36db ∷ 0x9692_9935 ∷ 0x2e2e_fe50 ∷ 0x2654_b999 ∷ 0x9ee8_defc ∷ 0x8c5d_7112
    ∷ 0x34e1_1677 ∷ 0xa936_2ece ∷ 0x118a_49ab ∷ 0x033f_e645 ∷ 0xbb83_8120 ∷ 0xe3e0_9176
    ∷ 0x5b5c_f613 ∷ 0x49e9_59fd ∷ 0xf155_3e98 ∷ 0x6c82_0621 ∷ 0xd43e_6144 ∷ 0xc68b_ceaa
    ∷ 0x7e37_a9cf ∷ 0xd67f_4138 ∷ 0x6ec3_265d ∷ 0x7c76_89b3 ∷ 0xc4ca_eed6 ∷ 0x591d_d66f
    ∷ 0xe1a1_b10a ∷ 0xf314_1ee4 ∷ 0x4ba8_7981 ∷ 0x13cb_69d7 ∷ 0xab77_0eb2 ∷ 0xb9c2_a15c
    ∷ 0x017e_c639 ∷ 0x9ca9_fe80 ∷ 0x2415_99e5 ∷ 0x36a0_360b ∷ 0x8e1c_516e ∷ 0x8666_16a7
    ∷ 0x3eda_71c2 ∷ 0x2c6f_de2c ∷ 0x94d3_b949 ∷ 0x0904_81f0 ∷ 0xb1b8_e695 ∷ 0xa30d_497b
    ∷ 0x1bb1_2e1e ∷ 0x43d2_3e48 ∷ 0xfb6e_592d ∷ 0xe9db_f6c3 ∷ 0x5167_91a6 ∷ 0xccb0_a91f
    ∷ 0x740c_ce7a ∷ 0x66b9_6194 ∷ 0xde05_06f1 ∷ []
