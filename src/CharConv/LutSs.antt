-- ===== src/CharConv/LutSs.antt =====
-- `LUT_GSM7_SS16` of src/gsm7_luts.h: the single shift tables of the 7-bit alphabet.
use asterisk_chan_quectel.Prelude.{ℕ, List, [], ◌∷◌}

ss16_0 : List ℕ
ss16_0 =
    1536 ∷ 1536 ∷ 1536 ∷ 1536 ∷ 1536 ∷ 1536 ∷ 1536 ∷ 1536 ∷ 1536 ∷ 1536 ∷ 12 ∷ 0 ∷ 0 ∷ 0 ∷ 0 ∷ 0 ∷ 0
    ∷ 0 ∷ 0 ∷ 0 ∷ 94 ∷ 0 ∷ 0 ∷ 0 ∷ 0 ∷ 0 ∷ 0 ∷ 0 ∷ 0 ∷ 0 ∷ 0 ∷ 0 ∷ 0 ∷ 0 ∷ 0 ∷ 0 ∷ 0 ∷ 0 ∷ 0 ∷ 0
    ∷ 123 ∷ 125 ∷ 0 ∷ 0 ∷ 0 ∷ 0 ∷ 0 ∷ 92 ∷ 0 ∷ 0 ∷ 0 ∷ 0 ∷ 0 ∷ 0 ∷ 0 ∷ 0 ∷ 0 ∷ 0 ∷ 0 ∷ 0 ∷ 91 ∷ 126
    ∷ 93 ∷ 0 ∷ 124 ∷ 0 ∷ 0 ∷ 0 ∷ 0 ∷ 0 ∷ 0 ∷ 0 ∷ 0 ∷ 0 ∷ 0 ∷ 0 ∷ 0 ∷ 0 ∷ 0 ∷ 0 ∷ 0 ∷ 0 ∷ 0 ∷ 0 ∷ 0
    ∷ 0 ∷ 0 ∷ 0 ∷ 0 ∷ 0 ∷ 0 ∷ 0 ∷ 0 ∷ 0 ∷ 0 ∷ 0 ∷ 0 ∷ 0 ∷ 0 ∷ 0 ∷ 0 ∷ 8364 ∷ 8192 ∷ 8192 ∷ 8192
    ∷ 8192 ∷ 8192 ∷ 8192 ∷ 8192 ∷ 8192 ∷ 8192 ∷ 8192 ∷ 8192 ∷ 8192 ∷ 8192 ∷ 8192 ∷ 8192 ∷ 8192
    ∷ 8192 ∷ 8192 ∷ 8192 ∷ 8192 ∷ 8192 ∷ 8192 ∷ 8192 ∷ 8192 ∷ 8192 ∷ 8192 ∷ []

ss16_1 : List ℕ
ss16_1 =
    8192 ∷ 8192 ∷ 8192 ∷ 8192 ∷ 8192 ∷ 8192 ∷ 8192 ∷ 8192 ∷ 8192 ∷ 8192 ∷ 12 ∷ 0 ∷ 0 ∷ 0 ∷ 0 ∷ 0 ∷ 0
    ∷ 0 ∷ 0 ∷ 0 ∷ 94 ∷ 0 ∷ 0 ∷ 0 ∷ 0 ∷ 0 ∷ 0 ∷ 0 ∷ 0 ∷ 0 ∷ 0 ∷ 0 ∷ 0 ∷ 0 ∷ 0 ∷ 0 ∷ 0 ∷ 0 ∷ 0 ∷ 0
    ∷ 123 ∷ 125 ∷ 0 ∷ 0 ∷ 0 ∷ 0 ∷ 0 ∷ 92 ∷ 0 ∷ 0 ∷ 0 ∷ 0 ∷ 0 ∷ 0 ∷ 0 ∷ 0 ∷ 0 ∷ 0 ∷ 0 ∷ 0 ∷ 91 ∷ 126
    ∷ 93 ∷ 0 ∷ 124 ∷ 0 ∷ 0 ∷ 0 ∷ 0 ∷ 0 ∷ 0 ∷ 286 ∷ 256 ∷ 304 ∷ 256 ∷ 256 ∷ 256 ∷ 256 ∷ 256 ∷ 256
    ∷ 256 ∷ 256 ∷ 256 ∷ 350 ∷ 256 ∷ 256 ∷ 256 ∷ 256 ∷ 256 ∷ 256 ∷ 256 ∷ 256 ∷ 256 ∷ 256 ∷ 256 ∷ 256
    ∷ 256 ∷ 256 ∷ 256 ∷ 231 ∷ 0 ∷ 8364 ∷ 8192 ∷ 287 ∷ 256 ∷ 305 ∷ 256 ∷ 256 ∷ 256 ∷ 256 ∷ 256 ∷ 256
    ∷ 256 ∷ 256 ∷ 256 ∷ 351 ∷ 256 ∷ 256 ∷ 256 ∷ 256 ∷ 256 ∷ 256 ∷ 256 ∷ 256 ∷ 256 ∷ 256 ∷ 256 ∷ 256
    ∷ []

ss16_2 : List ℕ
ss16_2 =
    256 ∷ 256 ∷ 256 ∷ 256 ∷ 256 ∷ 256 ∷ 256 ∷ 256 ∷ 256 ∷ 231 ∷ 12 ∷ 0 ∷ 0 ∷ 0 ∷ 0 ∷ 0 ∷ 0 ∷ 0 ∷ 0
    ∷ 0 ∷ 94 ∷ 0 ∷ 0 ∷ 0 ∷ 0 ∷ 0 ∷ 0 ∷ 0 ∷ 0 ∷ 0 ∷ 0 ∷ 0 ∷ 0 ∷ 0 ∷ 0 ∷ 0 ∷ 0 ∷ 0 ∷ 0 ∷ 0 ∷ 123 ∷ 125
    ∷ 0 ∷ 0 ∷ 0 ∷ 0 ∷ 0 ∷ 92 ∷ 0 ∷ 0 ∷ 0 ∷ 0 ∷ 0 ∷ 0 ∷ 0 ∷ 0 ∷ 0 ∷ 0 ∷ 0 ∷ 0 ∷ 91 ∷ 126 ∷ 93 ∷ 0
    ∷ 124 ∷ 193 ∷ 0 ∷ 0 ∷ 0 ∷ 0 ∷ 0 ∷ 0 ∷ 0 ∷ 205 ∷ 0 ∷ 0 ∷ 0 ∷ 0 ∷ 0 ∷ 211 ∷ 0 ∷ 0 ∷ 0 ∷ 0 ∷ 0
    ∷ 218 ∷ 0 ∷ 0 ∷ 0 ∷ 0 ∷ 0 ∷ 0 ∷ 0 ∷ 0 ∷ 0 ∷ 0 ∷ 0 ∷ 225 ∷ 0 ∷ 0 ∷ 0 ∷ 8364 ∷ 8192 ∷ 8192 ∷ 8192
    ∷ 237 ∷ 0 ∷ 0 ∷ 0 ∷ 0 ∷ 0 ∷ 243 ∷ 0 ∷ 0 ∷ 0 ∷ 0 ∷ 0 ∷ 250 ∷ 0 ∷ 0 ∷ 0 ∷ 0 ∷ 0 ∷ 0 ∷ 0 ∷ 0 ∷ 0
    ∷ 0 ∷ []

ss16_3 : List ℕ
ss16_3 =
    0 ∷ 0 ∷ 0 ∷ 0 ∷ 0 ∷ 234 ∷ 0 ∷ 0 ∷ 0 ∷ 231 ∷ 12 ∷ 212 ∷ 244 ∷ 0 ∷ 193 ∷ 225 ∷ 0 ∷ 0 ∷ 934 ∷ 915
    ∷ 94 ∷ 937 ∷ 928 ∷ 936 ∷ 931 ∷ 920 ∷ 768 ∷ 768 ∷ 768 ∷ 768 ∷ 768 ∷ 202 ∷ 0 ∷ 0 ∷ 0 ∷ 0 ∷ 0 ∷ 0
    ∷ 0 ∷ 0 ∷ 123 ∷ 125 ∷ 0 ∷ 0 ∷ 0 ∷ 0 ∷ 0 ∷ 92 ∷ 0 ∷ 0 ∷ 0 ∷ 0 ∷ 0 ∷ 0 ∷ 0 ∷ 0 ∷ 0 ∷ 0 ∷ 0 ∷ 0
    ∷ 91 ∷ 126 ∷ 93 ∷ 0 ∷ 124 ∷ 192 ∷ 0 ∷ 0 ∷ 0 ∷ 0 ∷ 0 ∷ 0 ∷ 0 ∷ 205 ∷ 0 ∷ 0 ∷ 0 ∷ 0 ∷ 0 ∷ 211 ∷ 0
    ∷ 0 ∷ 0 ∷ 0 ∷ 0 ∷ 218 ∷ 0 ∷ 0 ∷ 0 ∷ 0 ∷ 0 ∷ 195 ∷ 213 ∷ 0 ∷ 0 ∷ 0 ∷ 0 ∷ 194 ∷ 0 ∷ 0 ∷ 0 ∷ 8364
    ∷ 8192 ∷ 8192 ∷ 8192 ∷ 237 ∷ 0 ∷ 0 ∷ 0 ∷ 0 ∷ 0 ∷ 243 ∷ 0 ∷ 0 ∷ 0 ∷ 0 ∷ 0 ∷ 250 ∷ 0 ∷ 0 ∷ 0 ∷ 0
    ∷ 0 ∷ 227 ∷ 245 ∷ 0 ∷ 0 ∷ 226 ∷ []

ss16_4 : List ℕ
ss16_4 =
    64 ∷ 163 ∷ 36 ∷ 165 ∷ 191 ∷ 34 ∷ 164 ∷ 37 ∷ 38 ∷ 39 ∷ 12 ∷ 42 ∷ 43 ∷ 0 ∷ 45 ∷ 47 ∷ 60 ∷ 61 ∷ 62
    ∷ 161 ∷ 94 ∷ 161 ∷ 95 ∷ 35 ∷ 42 ∷ 2534 ∷ 2535 ∷ 2304 ∷ 2536 ∷ 2537 ∷ 2538 ∷ 2539 ∷ 2540 ∷ 2541
    ∷ 2542 ∷ 2543 ∷ 2527 ∷ 2528 ∷ 2529 ∷ 2530 ∷ 123 ∷ 125 ∷ 2531 ∷ 2546 ∷ 2547 ∷ 2548 ∷ 2549 ∷ 92
    ∷ 2550 ∷ 2551 ∷ 2552 ∷ 2553 ∷ 2554 ∷ 2304 ∷ 2304 ∷ 2304 ∷ 2304 ∷ 2304 ∷ 2304 ∷ 2304 ∷ 91 ∷ 126
    ∷ 93 ∷ 0 ∷ 124 ∷ 65 ∷ 66 ∷ 67 ∷ 68 ∷ 69 ∷ 70 ∷ 71 ∷ 72 ∷ 73 ∷ 74 ∷ 75 ∷ 76 ∷ 77 ∷ 78 ∷ 79 ∷ 80
    ∷ 81 ∷ 82 ∷ 83 ∷ 84 ∷ 85 ∷ 86 ∷ 87 ∷ 88 ∷ 89 ∷ 90 ∷ 0 ∷ 0 ∷ 0 ∷ 0 ∷ 0 ∷ 0 ∷ 0 ∷ 0 ∷ 0 ∷ 0 ∷ 8364
    ∷ 8192 ∷ 8192 ∷ 8192 ∷ 8192 ∷ 8192 ∷ 8192 ∷ 8192 ∷ 8192 ∷ 8192 ∷ 8192 ∷ 8192 ∷ 8192 ∷ 8192
    ∷ 8192 ∷ 8192 ∷ 8192 ∷ 8192 ∷ 8192 ∷ 8192 ∷ 8192 ∷ 8192 ∷ 8192 ∷ 8192 ∷ 8192 ∷ 8192 ∷ 8192 ∷ []

ss16_5 : List ℕ
ss16_5 =
    64 ∷ 163 ∷ 36 ∷ 165 ∷ 191 ∷ 34 ∷ 164 ∷ 37 ∷ 38 ∷ 39 ∷ 12 ∷ 42 ∷ 43 ∷ 0 ∷ 45 ∷ 47 ∷ 60 ∷ 61 ∷ 62
    ∷ 161 ∷ 94 ∷ 161 ∷ 95 ∷ 35 ∷ 42 ∷ 2404 ∷ 2405 ∷ 2304 ∷ 2790 ∷ 2791 ∷ 2792 ∷ 2793 ∷ 2794 ∷ 2795
    ∷ 2796 ∷ 2797 ∷ 2798 ∷ 2799 ∷ 2560 ∷ 2560 ∷ 123 ∷ 125 ∷ 0 ∷ 0 ∷ 0 ∷ 0 ∷ 0 ∷ 92 ∷ 0 ∷ 0 ∷ 0 ∷ 0
    ∷ 0 ∷ 0 ∷ 0 ∷ 0 ∷ 0 ∷ 0 ∷ 0 ∷ 0 ∷ 91 ∷ 126 ∷ 93 ∷ 0 ∷ 124 ∷ 65 ∷ 66 ∷ 67 ∷ 68 ∷ 69 ∷ 70 ∷ 71
    ∷ 72 ∷ 73 ∷ 74 ∷ 75 ∷ 76 ∷ 77 ∷ 78 ∷ 79 ∷ 80 ∷ 81 ∷ 82 ∷ 83 ∷ 84 ∷ 85 ∷ 86 ∷ 87 ∷ 88 ∷ 89 ∷ 90
    ∷ 0 ∷ 0 ∷ 0 ∷ 0 ∷ 0 ∷ 0 ∷ 0 ∷ 0 ∷ 0 ∷ 0 ∷ 8364 ∷ 8192 ∷ 8192 ∷ 8192 ∷ 8192 ∷ 8192 ∷ 8192 ∷ 8192
    ∷ 8192 ∷ 8192 ∷ 8192 ∷ 8192 ∷ 8192 ∷ 8192 ∷ 8192 ∷ 8192 ∷ 8192 ∷ 8192 ∷ 8192 ∷ 8192 ∷ 8192
    ∷ 8192 ∷ 8192 ∷ 8192 ∷ 8192 ∷ 8192 ∷ 8192 ∷ []

ss16_6 : List ℕ
ss16_6 =
    64 ∷ 163 ∷ 36 ∷ 165 ∷ 191 ∷ 34 ∷ 164 ∷ 37 ∷ 38 ∷ 39 ∷ 12 ∷ 42 ∷ 43 ∷ 0 ∷ 45 ∷ 47 ∷ 60 ∷ 61 ∷ 62
    ∷ 161 ∷ 94 ∷ 161 ∷ 95 ∷ 35 ∷ 42 ∷ 2404 ∷ 2405 ∷ 2304 ∷ 2406 ∷ 2407 ∷ 2408 ∷ 2409 ∷ 2410 ∷ 2411
    ∷ 2412 ∷ 2413 ∷ 2414 ∷ 2415 ∷ 2385 ∷ 2386 ∷ 123 ∷ 125 ∷ 2387 ∷ 2388 ∷ 2392 ∷ 2393 ∷ 2394 ∷ 92
    ∷ 2395 ∷ 2396 ∷ 2397 ∷ 2398 ∷ 2399 ∷ 2400 ∷ 2401 ∷ 2402 ∷ 2403 ∷ 2416 ∷ 2417 ∷ 2304 ∷ 91 ∷ 126
    ∷ 93 ∷ 0 ∷ 124 ∷ 65 ∷ 66 ∷ 67 ∷ 68 ∷ 69 ∷ 70 ∷ 71 ∷ 72 ∷ 73 ∷ 74 ∷ 75 ∷ 76 ∷ 77 ∷ 78 ∷ 79 ∷ 80
    ∷ 81 ∷ 82 ∷ 83 ∷ 84 ∷ 85 ∷ 86 ∷ 87 ∷ 88 ∷ 89 ∷ 90 ∷ 0 ∷ 0 ∷ 0 ∷ 0 ∷ 0 ∷ 0 ∷ 0 ∷ 0 ∷ 0 ∷ 0 ∷ 8364
    ∷ 8192 ∷ 8192 ∷ 8192 ∷ 8192 ∷ 8192 ∷ 8192 ∷ 8192 ∷ 8192 ∷ 8192 ∷ 8192 ∷ 8192 ∷ 8192 ∷ 8192
    ∷ 8192 ∷ 8192 ∷ 8192 ∷ 8192 ∷ 8192 ∷ 8192 ∷ 8192 ∷ 8192 ∷ 8192 ∷ 8192 ∷ 8192 ∷ 8192 ∷ 8192 ∷ []

ss16_7 : List ℕ
ss16_7 =
    64 ∷ 163 ∷ 36 ∷ 165 ∷ 191 ∷ 34 ∷ 164 ∷ 37 ∷ 38 ∷ 39 ∷ 12 ∷ 42 ∷ 43 ∷ 0 ∷ 45 ∷ 47 ∷ 60 ∷ 61 ∷ 62
    ∷ 161 ∷ 94 ∷ 161 ∷ 95 ∷ 35 ∷ 42 ∷ 2404 ∷ 2405 ∷ 2304 ∷ 3302 ∷ 3303 ∷ 3304 ∷ 3305 ∷ 3306 ∷ 3307
    ∷ 3308 ∷ 3309 ∷ 3310 ∷ 3311 ∷ 3294 ∷ 3313 ∷ 123 ∷ 125 ∷ 3314 ∷ 3072 ∷ 3072 ∷ 3072 ∷ 3072 ∷ 92
    ∷ 0 ∷ 0 ∷ 0 ∷ 0 ∷ 0 ∷ 0 ∷ 0 ∷ 0 ∷ 0 ∷ 0 ∷ 0 ∷ 0 ∷ 91 ∷ 126 ∷ 93 ∷ 0 ∷ 124 ∷ 65 ∷ 66 ∷ 67 ∷ 68
    ∷ 69 ∷ 70 ∷ 71 ∷ 72 ∷ 73 ∷ 74 ∷ 75 ∷ 76 ∷ 77 ∷ 78 ∷ 79 ∷ 80 ∷ 81 ∷ 82 ∷ 83 ∷ 84 ∷ 85 ∷ 86 ∷ 87
    ∷ 88 ∷ 89 ∷ 90 ∷ 0 ∷ 0 ∷ 0 ∷ 0 ∷ 0 ∷ 0 ∷ 0 ∷ 0 ∷ 0 ∷ 0 ∷ 8364 ∷ 8192 ∷ 8192 ∷ 8192 ∷ 8192 ∷ 8192
    ∷ 8192 ∷ 8192 ∷ 8192 ∷ 8192 ∷ 8192 ∷ 8192 ∷ 8192 ∷ 8192 ∷ 8192 ∷ 8192 ∷ 8192 ∷ 8192 ∷ 8192
    ∷ 8192 ∷ 8192 ∷ 8192 ∷ 8192 ∷ 8192 ∷ 8192 ∷ 8192 ∷ 8192 ∷ []

ss16_8 : List ℕ
ss16_8 =
    64 ∷ 163 ∷ 36 ∷ 165 ∷ 191 ∷ 34 ∷ 164 ∷ 37 ∷ 38 ∷ 39 ∷ 12 ∷ 42 ∷ 43 ∷ 0 ∷ 45 ∷ 47 ∷ 60 ∷ 61 ∷ 62
    ∷ 161 ∷ 94 ∷ 161 ∷ 95 ∷ 35 ∷ 42 ∷ 2404 ∷ 2405 ∷ 2304 ∷ 3430 ∷ 3431 ∷ 3432 ∷ 3433 ∷ 3434 ∷ 3435
    ∷ 3436 ∷ 3437 ∷ 3438 ∷ 3439 ∷ 3440 ∷ 3441 ∷ 123 ∷ 125 ∷ 3442 ∷ 3443 ∷ 3444 ∷ 3445 ∷ 3450 ∷ 92
    ∷ 3451 ∷ 3452 ∷ 3453 ∷ 3454 ∷ 3455 ∷ 3328 ∷ 3328 ∷ 3328 ∷ 3328 ∷ 3328 ∷ 3328 ∷ 3328 ∷ 91 ∷ 126
    ∷ 93 ∷ 0 ∷ 124 ∷ 65 ∷ 66 ∷ 67 ∷ 68 ∷ 69 ∷ 70 ∷ 71 ∷ 72 ∷ 73 ∷ 74 ∷ 75 ∷ 76 ∷ 77 ∷ 78 ∷ 79 ∷ 80
    ∷ 81 ∷ 82 ∷ 83 ∷ 84 ∷ 85 ∷ 86 ∷ 87 ∷ 88 ∷ 89 ∷ 90 ∷ 0 ∷ 0 ∷ 0 ∷ 0 ∷ 0 ∷ 0 ∷ 0 ∷ 0 ∷ 0 ∷ 0 ∷ 8364
    ∷ 8192 ∷ 8192 ∷ 8192 ∷ 8192 ∷ 8192 ∷ 8192 ∷ 8192 ∷ 8192 ∷ 8192 ∷ 8192 ∷ 8192 ∷ 8192 ∷ 8192
    ∷ 8192 ∷ 8192 ∷ 8192 ∷ 8192 ∷ 8192 ∷ 8192 ∷ 8192 ∷ 8192 ∷ 8192 ∷ 8192 ∷ 8192 ∷ 8192 ∷ 8192 ∷ []

ss16_9 : List ℕ
ss16_9 =
    64 ∷ 163 ∷ 36 ∷ 165 ∷ 191 ∷ 34 ∷ 164 ∷ 37 ∷ 38 ∷ 39 ∷ 12 ∷ 42 ∷ 43 ∷ 0 ∷ 45 ∷ 47 ∷ 60 ∷ 61 ∷ 62
    ∷ 161 ∷ 94 ∷ 161 ∷ 95 ∷ 35 ∷ 42 ∷ 2404 ∷ 2405 ∷ 2304 ∷ 2918 ∷ 2919 ∷ 2920 ∷ 2921 ∷ 2922 ∷ 2923
    ∷ 2924 ∷ 2925 ∷ 2926 ∷ 2927 ∷ 2908 ∷ 2909 ∷ 123 ∷ 125 ∷ 2911 ∷ 2928 ∷ 2929 ∷ 2816 ∷ 2816 ∷ 92
    ∷ 0 ∷ 0 ∷ 0 ∷ 0 ∷ 0 ∷ 0 ∷ 0 ∷ 0 ∷ 0 ∷ 0 ∷ 0 ∷ 0 ∷ 91 ∷ 126 ∷ 93 ∷ 0 ∷ 124 ∷ 65 ∷ 66 ∷ 67 ∷ 68
    ∷ 69 ∷ 70 ∷ 71 ∷ 72 ∷ 73 ∷ 74 ∷ 75 ∷ 76 ∷ 77 ∷ 78 ∷ 79 ∷ 80 ∷ 81 ∷ 82 ∷ 83 ∷ 84 ∷ 85 ∷ 86 ∷ 87
    ∷ 88 ∷ 89 ∷ 90 ∷ 0 ∷ 0 ∷ 0 ∷ 0 ∷ 0 ∷ 0 ∷ 0 ∷ 0 ∷ 0 ∷ 0 ∷ 8364 ∷ 8192 ∷ 8192 ∷ 8192 ∷ 8192 ∷ 8192
    ∷ 8192 ∷ 8192 ∷ 8192 ∷ 8192 ∷ 8192 ∷ 8192 ∷ 8192 ∷ 8192 ∷ 8192 ∷ 8192 ∷ 8192 ∷ 8192 ∷ 8192
    ∷ 8192 ∷ 8192 ∷ 8192 ∷ 8192 ∷ 8192 ∷ 8192 ∷ 8192 ∷ 8192 ∷ []

ss16_10 : List ℕ
ss16_10 =
    64 ∷ 163 ∷ 36 ∷ 165 ∷ 191 ∷ 34 ∷ 164 ∷ 37 ∷ 38 ∷ 39 ∷ 12 ∷ 42 ∷ 43 ∷ 0 ∷ 45 ∷ 47 ∷ 60 ∷ 61 ∷ 62
    ∷ 161 ∷ 94 ∷ 161 ∷ 95 ∷ 35 ∷ 42 ∷ 2404 ∷ 2405 ∷ 2304 ∷ 2662 ∷ 2663 ∷ 2664 ∷ 2665 ∷ 2666 ∷ 2667
    ∷ 2668 ∷ 2669 ∷ 2670 ∷ 2671 ∷ 2649 ∷ 2650 ∷ 123 ∷ 125 ∷ 2651 ∷ 2652 ∷ 2654 ∷ 2677 ∷ 2560 ∷ 92
    ∷ 0 ∷ 0 ∷ 0 ∷ 0 ∷ 0 ∷ 0 ∷ 0 ∷ 0 ∷ 0 ∷ 0 ∷ 0 ∷ 0 ∷ 91 ∷ 126 ∷ 93 ∷ 0 ∷ 124 ∷ 65 ∷ 66 ∷ 67 ∷ 68
    ∷ 69 ∷ 70 ∷ 71 ∷ 72 ∷ 73 ∷ 74 ∷ 75 ∷ 76 ∷ 77 ∷ 78 ∷ 79 ∷ 80 ∷ 81 ∷ 82 ∷ 83 ∷ 84 ∷ 85 ∷ 86 ∷ 87
    ∷ 88 ∷ 89 ∷ 90 ∷ 0 ∷ 0 ∷ 0 ∷ 0 ∷ 0 ∷ 0 ∷ 0 ∷ 0 ∷ 0 ∷ 0 ∷ 8364 ∷ 8192 ∷ 8192 ∷ 8192 ∷ 8192 ∷ 8192
    ∷ 8192 ∷ 8192 ∷ 8192 ∷ 8192 ∷ 8192 ∷ 8192 ∷ 8192 ∷ 8192 ∷ 8192 ∷ 8192 ∷ 8192 ∷ 8192 ∷ 8192
    ∷ 8192 ∷ 8192 ∷ 8192 ∷ 8192 ∷ 8192 ∷ 8192 ∷ 8192 ∷ 8192 ∷ []

ss16_11 : List ℕ
ss16_11 =
    64 ∷ 163 ∷ 36 ∷ 165 ∷ 191 ∷ 34 ∷ 164 ∷ 37 ∷ 38 ∷ 39 ∷ 12 ∷ 42 ∷ 43 ∷ 0 ∷ 45 ∷ 47 ∷ 60 ∷ 61 ∷ 62
    ∷ 161 ∷ 94 ∷ 161 ∷ 95 ∷ 35 ∷ 42 ∷ 2404 ∷ 2405 ∷ 2304 ∷ 3046 ∷ 3047 ∷ 3048 ∷ 3049 ∷ 3050 ∷ 3051
    ∷ 3052 ∷ 3053 ∷ 3054 ∷ 3055 ∷ 3059 ∷ 3060 ∷ 123 ∷ 125 ∷ 3061 ∷ 3062 ∷ 3063 ∷ 3064 ∷ 3066 ∷ 92
    ∷ 0 ∷ 0 ∷ 0 ∷ 0 ∷ 0 ∷ 0 ∷ 0 ∷ 0 ∷ 0 ∷ 0 ∷ 0 ∷ 0 ∷ 91 ∷ 126 ∷ 93 ∷ 0 ∷ 124 ∷ 65 ∷ 66 ∷ 67 ∷ 68
    ∷ 69 ∷ 70 ∷ 71 ∷ 72 ∷ 73 ∷ 74 ∷ 75 ∷ 76 ∷ 77 ∷ 78 ∷ 79 ∷ 80 ∷ 81 ∷ 82 ∷ 83 ∷ 84 ∷ 85 ∷ 86 ∷ 87
    ∷ 88 ∷ 89 ∷ 90 ∷ 0 ∷ 0 ∷ 0 ∷ 0 ∷ 0 ∷ 0 ∷ 0 ∷ 0 ∷ 0 ∷ 0 ∷ 8364 ∷ 8192 ∷ 8192 ∷ 8192 ∷ 8192 ∷ 8192
    ∷ 8192 ∷ 8192 ∷ 8192 ∷ 8192 ∷ 8192 ∷ 8192 ∷ 8192 ∷ 8192 ∷ 8192 ∷ 8192 ∷ 8192 ∷ 8192 ∷ 8192
    ∷ 8192 ∷ 8192 ∷ 8192 ∷ 8192 ∷ 8192 ∷ 8192 ∷ 8192 ∷ 8192 ∷ []

ss16_12 : List ℕ
ss16_12 =
    64 ∷ 163 ∷ 36 ∷ 165 ∷ 191 ∷ 34 ∷ 164 ∷ 37 ∷ 38 ∷ 39 ∷ 12 ∷ 42 ∷ 43 ∷ 0 ∷ 45 ∷ 47 ∷ 60 ∷ 61 ∷ 62
    ∷ 161 ∷ 94 ∷ 161 ∷ 95 ∷ 35 ∷ 42 ∷ 0 ∷ 0 ∷ 0 ∷ 3174 ∷ 3175 ∷ 3176 ∷ 3177 ∷ 3178 ∷ 3179 ∷ 3180
    ∷ 3181 ∷ 3182 ∷ 3183 ∷ 3160 ∷ 3161 ∷ 123 ∷ 125 ∷ 3192 ∷ 3193 ∷ 3194 ∷ 3195 ∷ 3196 ∷ 92 ∷ 3197
    ∷ 3198 ∷ 3199 ∷ 3072 ∷ 3072 ∷ 3072 ∷ 3072 ∷ 3072 ∷ 3072 ∷ 3072 ∷ 3072 ∷ 3072 ∷ 91 ∷ 126 ∷ 93 ∷ 0
    ∷ 124 ∷ 65 ∷ 66 ∷ 67 ∷ 68 ∷ 69 ∷ 70 ∷ 71 ∷ 72 ∷ 73 ∷ 74 ∷ 75 ∷ 76 ∷ 77 ∷ 78 ∷ 79 ∷ 80 ∷ 81 ∷ 82
    ∷ 83 ∷ 84 ∷ 85 ∷ 86 ∷ 87 ∷ 88 ∷ 89 ∷ 90 ∷ 0 ∷ 0 ∷ 0 ∷ 0 ∷ 0 ∷ 0 ∷ 0 ∷ 0 ∷ 0 ∷ 0 ∷ 8364 ∷ 8192
    ∷ 8192 ∷ 8192 ∷ 8192 ∷ 8192 ∷ 8192 ∷ 8192 ∷ 8192 ∷ 8192 ∷ 8192 ∷ 8192 ∷ 8192 ∷ 8192 ∷ 8192
    ∷ 8192 ∷ 8192 ∷ 8192 ∷ 8192 ∷ 8192 ∷ 8192 ∷ 8192 ∷ 8192 ∷ 8192 ∷ 8192 ∷ 8192 ∷ 8192 ∷ []

ss16_13 : List ℕ
ss16_13 =
    64 ∷ 163 ∷ 36 ∷ 165 ∷ 191 ∷ 34 ∷ 164 ∷ 37 ∷ 38 ∷ 39 ∷ 12 ∷ 42 ∷ 43 ∷ 0 ∷ 45 ∷ 47 ∷ 60 ∷ 61 ∷ 62
    ∷ 161 ∷ 94 ∷ 161 ∷ 95 ∷ 35 ∷ 42 ∷ 1536 ∷ 1537 ∷ 1536 ∷ 1776 ∷ 1777 ∷ 1778 ∷ 1779 ∷ 1780 ∷ 1781
    ∷ 1782 ∷ 1783 ∷ 1784 ∷ 1785 ∷ 1548 ∷ 1549 ∷ 123 ∷ 125 ∷ 1550 ∷ 1551 ∷ 1552 ∷ 1553 ∷ 1554 ∷ 92
    ∷ 1555 ∷ 1556 ∷ 1563 ∷ 1567 ∷ 1600 ∷ 1618 ∷ 1624 ∷ 1643 ∷ 1644 ∷ 1650 ∷ 1651 ∷ 1741 ∷ 91 ∷ 126
    ∷ 93 ∷ 1748 ∷ 124 ∷ 65 ∷ 66 ∷ 67 ∷ 68 ∷ 69 ∷ 70 ∷ 71 ∷ 72 ∷ 73 ∷ 74 ∷ 75 ∷ 76 ∷ 77 ∷ 78 ∷ 79
    ∷ 80 ∷ 81 ∷ 82 ∷ 83 ∷ 84 ∷ 85 ∷ 86 ∷ 87 ∷ 88 ∷ 89 ∷ 90 ∷ 0 ∷ 0 ∷ 0 ∷ 0 ∷ 0 ∷ 0 ∷ 0 ∷ 0 ∷ 0 ∷ 0
    ∷ 8364 ∷ 8192 ∷ 8192 ∷ 8192 ∷ 8192 ∷ 8192 ∷ 8192 ∷ 8192 ∷ 8192 ∷ 8192 ∷ 8192 ∷ 8192 ∷ 8192
    ∷ 8192 ∷ 8192 ∷ 8192 ∷ 8192 ∷ 8192 ∷ 8192 ∷ 8192 ∷ 8192 ∷ 8192 ∷ 8192 ∷ 8192 ∷ 8192 ∷ 8192
    ∷ 8192 ∷ []

unfoldable pub lut_gsm7_ss16 : List (List ℕ)
unfolding ss16_0 ss16_1 ss16_2 ss16_3 ss16_4 ss16_5 ss16_6 ss16_7 ss16_8 ss16_9 ss16_10 ss16_11
    ss16_12 ss16_13
lut_gsm7_ss16 =
    ss16_0 ∷ ss16_1 ∷ ss16_2 ∷ ss16_3 ∷ ss16_4 ∷ ss16_5 ∷ ss16_6 ∷ ss16_7 ∷ ss16_8 ∷ ss16_9
    ∷ ss16_10 ∷ ss16_11 ∷ ss16_12 ∷ ss16_13 ∷ []
