-- ===== src/CharConv/LutLs.antt =====
-- `LUT_GSM7_LS16` of src/gsm7_luts.h: the locking shift tables of the 7-bit alphabet, as UTF-16
-- code units, a row for each national language.
use asterisk_chan_quectel.Prelude.{ℕ, List, [], ◌∷◌}

ls16_0 : List ℕ
ls16_0 =
    64 ∷ 163 ∷ 36 ∷ 165 ∷ 232 ∷ 233 ∷ 249 ∷ 236 ∷ 242 ∷ 199 ∷ 10 ∷ 216 ∷ 248 ∷ 13 ∷ 197 ∷ 229 ∷ 916
    ∷ 95 ∷ 934 ∷ 915 ∷ 923 ∷ 937 ∷ 928 ∷ 936 ∷ 931 ∷ 920 ∷ 926 ∷ 27 ∷ 198 ∷ 230 ∷ 223 ∷ 201 ∷ 32
    ∷ 33 ∷ 34 ∷ 35 ∷ 164 ∷ 37 ∷ 38 ∷ 39 ∷ 40 ∷ 41 ∷ 42 ∷ 43 ∷ 44 ∷ 45 ∷ 46 ∷ 47 ∷ 48 ∷ 49 ∷ 50 ∷ 51
    ∷ 52 ∷ 53 ∷ 54 ∷ 55 ∷ 56 ∷ 57 ∷ 58 ∷ 59 ∷ 60 ∷ 61 ∷ 62 ∷ 63 ∷ 161 ∷ 65 ∷ 66 ∷ 67 ∷ 68 ∷ 69 ∷ 70
    ∷ 71 ∷ 72 ∷ 73 ∷ 74 ∷ 75 ∷ 76 ∷ 77 ∷ 78 ∷ 79 ∷ 80 ∷ 81 ∷ 82 ∷ 83 ∷ 84 ∷ 85 ∷ 86 ∷ 87 ∷ 88 ∷ 89
    ∷ 90 ∷ 196 ∷ 214 ∷ 209 ∷ 220 ∷ 167 ∷ 191 ∷ 97 ∷ 98 ∷ 99 ∷ 100 ∷ 101 ∷ 102 ∷ 103 ∷ 104 ∷ 105
    ∷ 106 ∷ 107 ∷ 108 ∷ 109 ∷ 110 ∷ 111 ∷ 112 ∷ 113 ∷ 114 ∷ 115 ∷ 116 ∷ 117 ∷ 118 ∷ 119 ∷ 120 ∷ 121
    ∷ 122 ∷ 228 ∷ 246 ∷ 241 ∷ 252 ∷ 224 ∷ []

ls16_1 : List ℕ
ls16_1 =
    64 ∷ 163 ∷ 36 ∷ 165 ∷ 8364 ∷ 233 ∷ 249 ∷ 305 ∷ 242 ∷ 199 ∷ 10 ∷ 286 ∷ 287 ∷ 13 ∷ 197 ∷ 229 ∷ 916
    ∷ 95 ∷ 934 ∷ 915 ∷ 923 ∷ 937 ∷ 928 ∷ 936 ∷ 931 ∷ 920 ∷ 926 ∷ 27 ∷ 350 ∷ 351 ∷ 223 ∷ 201 ∷ 32
    ∷ 33 ∷ 34 ∷ 35 ∷ 164 ∷ 37 ∷ 38 ∷ 39 ∷ 40 ∷ 41 ∷ 42 ∷ 43 ∷ 44 ∷ 45 ∷ 46 ∷ 47 ∷ 48 ∷ 49 ∷ 50 ∷ 51
    ∷ 52 ∷ 53 ∷ 54 ∷ 55 ∷ 56 ∷ 57 ∷ 58 ∷ 59 ∷ 60 ∷ 61 ∷ 62 ∷ 63 ∷ 304 ∷ 65 ∷ 66 ∷ 67 ∷ 68 ∷ 69 ∷ 70
    ∷ 71 ∷ 72 ∷ 73 ∷ 74 ∷ 75 ∷ 76 ∷ 77 ∷ 78 ∷ 79 ∷ 80 ∷ 81 ∷ 82 ∷ 83 ∷ 84 ∷ 85 ∷ 86 ∷ 87 ∷ 88 ∷ 89
    ∷ 90 ∷ 196 ∷ 214 ∷ 209 ∷ 220 ∷ 167 ∷ 231 ∷ 97 ∷ 98 ∷ 99 ∷ 100 ∷ 101 ∷ 102 ∷ 103 ∷ 104 ∷ 105
    ∷ 106 ∷ 107 ∷ 108 ∷ 109 ∷ 110 ∷ 111 ∷ 112 ∷ 113 ∷ 114 ∷ 115 ∷ 116 ∷ 117 ∷ 118 ∷ 119 ∷ 120 ∷ 121
    ∷ 122 ∷ 228 ∷ 246 ∷ 241 ∷ 252 ∷ 224 ∷ []

ls16_2 : List ℕ
ls16_2 =
    64 ∷ 163 ∷ 36 ∷ 165 ∷ 232 ∷ 233 ∷ 249 ∷ 236 ∷ 242 ∷ 199 ∷ 10 ∷ 216 ∷ 248 ∷ 13 ∷ 197 ∷ 229 ∷ 916
    ∷ 95 ∷ 934 ∷ 915 ∷ 923 ∷ 937 ∷ 928 ∷ 936 ∷ 931 ∷ 920 ∷ 926 ∷ 27 ∷ 198 ∷ 230 ∷ 223 ∷ 201 ∷ 32
    ∷ 33 ∷ 34 ∷ 35 ∷ 164 ∷ 37 ∷ 38 ∷ 39 ∷ 40 ∷ 41 ∷ 42 ∷ 43 ∷ 44 ∷ 45 ∷ 46 ∷ 47 ∷ 48 ∷ 49 ∷ 50 ∷ 51
    ∷ 52 ∷ 53 ∷ 54 ∷ 55 ∷ 56 ∷ 57 ∷ 58 ∷ 59 ∷ 60 ∷ 61 ∷ 62 ∷ 63 ∷ 161 ∷ 65 ∷ 66 ∷ 67 ∷ 68 ∷ 69 ∷ 70
    ∷ 71 ∷ 72 ∷ 73 ∷ 74 ∷ 75 ∷ 76 ∷ 77 ∷ 78 ∷ 79 ∷ 80 ∷ 81 ∷ 82 ∷ 83 ∷ 84 ∷ 85 ∷ 86 ∷ 87 ∷ 88 ∷ 89
    ∷ 90 ∷ 196 ∷ 214 ∷ 209 ∷ 220 ∷ 167 ∷ 191 ∷ 97 ∷ 98 ∷ 99 ∷ 100 ∷ 101 ∷ 102 ∷ 103 ∷ 104 ∷ 105
    ∷ 106 ∷ 107 ∷ 108 ∷ 109 ∷ 110 ∷ 111 ∷ 112 ∷ 113 ∷ 114 ∷ 115 ∷ 116 ∷ 117 ∷ 118 ∷ 119 ∷ 120 ∷ 121
    ∷ 122 ∷ 228 ∷ 246 ∷ 241 ∷ 252 ∷ 224 ∷ []

ls16_3 : List ℕ
ls16_3 =
    64 ∷ 163 ∷ 36 ∷ 165 ∷ 234 ∷ 233 ∷ 250 ∷ 237 ∷ 243 ∷ 231 ∷ 10 ∷ 212 ∷ 244 ∷ 13 ∷ 193 ∷ 225 ∷ 916
    ∷ 95 ∷ 170 ∷ 199 ∷ 192 ∷ 8734 ∷ 94 ∷ 92 ∷ 8364 ∷ 211 ∷ 124 ∷ 27 ∷ 194 ∷ 226 ∷ 202 ∷ 201 ∷ 32
    ∷ 33 ∷ 34 ∷ 35 ∷ 186 ∷ 37 ∷ 38 ∷ 39 ∷ 40 ∷ 41 ∷ 42 ∷ 43 ∷ 44 ∷ 45 ∷ 46 ∷ 47 ∷ 48 ∷ 49 ∷ 50 ∷ 51
    ∷ 52 ∷ 53 ∷ 54 ∷ 55 ∷ 56 ∷ 57 ∷ 58 ∷ 59 ∷ 60 ∷ 61 ∷ 62 ∷ 63 ∷ 205 ∷ 65 ∷ 66 ∷ 67 ∷ 68 ∷ 69 ∷ 70
    ∷ 71 ∷ 72 ∷ 73 ∷ 74 ∷ 75 ∷ 76 ∷ 77 ∷ 78 ∷ 79 ∷ 80 ∷ 81 ∷ 82 ∷ 83 ∷ 84 ∷ 85 ∷ 86 ∷ 87 ∷ 88 ∷ 89
    ∷ 90 ∷ 195 ∷ 213 ∷ 218 ∷ 220 ∷ 167 ∷ 126 ∷ 97 ∷ 98 ∷ 99 ∷ 100 ∷ 101 ∷ 102 ∷ 103 ∷ 104 ∷ 105
    ∷ 106 ∷ 107 ∷ 108 ∷ 109 ∷ 110 ∷ 111 ∷ 112 ∷ 113 ∷ 114 ∷ 115 ∷ 116 ∷ 117 ∷ 118 ∷ 119 ∷ 120 ∷ 121
    ∷ 122 ∷ 227 ∷ 245 ∷ 96 ∷ 252 ∷ 224 ∷ []

ls16_4 : List ℕ
ls16_4 =
    2433 ∷ 2434 ∷ 2435 ∷ 2437 ∷ 2438 ∷ 2439 ∷ 2440 ∷ 2441 ∷ 2442 ∷ 2443 ∷ 10 ∷ 2444 ∷ 2304 ∷ 13 ∷ 0
    ∷ 2447 ∷ 2448 ∷ 2304 ∷ 2304 ∷ 2451 ∷ 2452 ∷ 2453 ∷ 2454 ∷ 2455 ∷ 2456 ∷ 2457 ∷ 2458 ∷ 27 ∷ 2459
    ∷ 2460 ∷ 2461 ∷ 2462 ∷ 32 ∷ 33 ∷ 2463 ∷ 2464 ∷ 2465 ∷ 2466 ∷ 2467 ∷ 2468 ∷ 41 ∷ 40 ∷ 2469 ∷ 2470
    ∷ 44 ∷ 2471 ∷ 46 ∷ 2472 ∷ 48 ∷ 49 ∷ 50 ∷ 51 ∷ 52 ∷ 53 ∷ 54 ∷ 55 ∷ 56 ∷ 57 ∷ 58 ∷ 59 ∷ 0 ∷ 2474
    ∷ 2475 ∷ 63 ∷ 2476 ∷ 2477 ∷ 2478 ∷ 2479 ∷ 2480 ∷ 2304 ∷ 2482 ∷ 2304 ∷ 2304 ∷ 2304 ∷ 2486 ∷ 2487
    ∷ 2488 ∷ 2489 ∷ 2492 ∷ 2493 ∷ 2494 ∷ 2495 ∷ 2496 ∷ 2497 ∷ 2498 ∷ 2499 ∷ 2500 ∷ 2304 ∷ 2304
    ∷ 2503 ∷ 2504 ∷ 2304 ∷ 2304 ∷ 2507 ∷ 2508 ∷ 2509 ∷ 2510 ∷ 97 ∷ 98 ∷ 99 ∷ 100 ∷ 101 ∷ 102 ∷ 103
    ∷ 104 ∷ 105 ∷ 106 ∷ 107 ∷ 108 ∷ 109 ∷ 110 ∷ 111 ∷ 112 ∷ 113 ∷ 114 ∷ 115 ∷ 116 ∷ 117 ∷ 118 ∷ 119
    ∷ 120 ∷ 121 ∷ 122 ∷ 2519 ∷ 2524 ∷ 2525 ∷ 2544 ∷ 2545 ∷ []

ls16_5 : List ℕ
ls16_5 =
    2689 ∷ 2690 ∷ 2691 ∷ 2693 ∷ 2694 ∷ 2695 ∷ 2696 ∷ 2697 ∷ 2698 ∷ 2699 ∷ 10 ∷ 2700 ∷ 2701 ∷ 13 ∷ 0
    ∷ 2703 ∷ 2704 ∷ 2705 ∷ 2560 ∷ 2707 ∷ 2708 ∷ 2709 ∷ 2710 ∷ 2711 ∷ 2712 ∷ 2713 ∷ 2714 ∷ 27 ∷ 2715
    ∷ 2716 ∷ 2717 ∷ 2718 ∷ 32 ∷ 33 ∷ 2719 ∷ 2720 ∷ 2721 ∷ 2722 ∷ 2723 ∷ 2724 ∷ 41 ∷ 40 ∷ 2725 ∷ 2726
    ∷ 44 ∷ 2727 ∷ 46 ∷ 2728 ∷ 48 ∷ 49 ∷ 50 ∷ 51 ∷ 52 ∷ 53 ∷ 54 ∷ 55 ∷ 56 ∷ 57 ∷ 58 ∷ 59 ∷ 0 ∷ 2730
    ∷ 2731 ∷ 63 ∷ 2732 ∷ 2733 ∷ 2734 ∷ 2735 ∷ 2736 ∷ 2560 ∷ 2738 ∷ 2739 ∷ 2560 ∷ 2741 ∷ 2742 ∷ 2743
    ∷ 2744 ∷ 2745 ∷ 2748 ∷ 2749 ∷ 2750 ∷ 2751 ∷ 2752 ∷ 2753 ∷ 2754 ∷ 2755 ∷ 2756 ∷ 2757 ∷ 2560
    ∷ 2759 ∷ 2760 ∷ 2761 ∷ 2560 ∷ 2763 ∷ 2764 ∷ 2765 ∷ 2768 ∷ 97 ∷ 98 ∷ 99 ∷ 100 ∷ 101 ∷ 102 ∷ 103
    ∷ 104 ∷ 105 ∷ 106 ∷ 107 ∷ 108 ∷ 109 ∷ 110 ∷ 111 ∷ 112 ∷ 113 ∷ 114 ∷ 115 ∷ 116 ∷ 117 ∷ 118 ∷ 119
    ∷ 120 ∷ 121 ∷ 122 ∷ 2784 ∷ 2785 ∷ 2786 ∷ 2787 ∷ 2801 ∷ []

ls16_6 : List ℕ
ls16_6 =
    2305 ∷ 2306 ∷ 2307 ∷ 2309 ∷ 2310 ∷ 2311 ∷ 2312 ∷ 2313 ∷ 2314 ∷ 2315 ∷ 10 ∷ 2316 ∷ 2317 ∷ 13
    ∷ 2318 ∷ 2319 ∷ 2320 ∷ 2321 ∷ 2322 ∷ 2323 ∷ 2324 ∷ 2325 ∷ 2326 ∷ 2327 ∷ 2328 ∷ 2329 ∷ 2330 ∷ 27
    ∷ 2331 ∷ 2332 ∷ 2333 ∷ 2334 ∷ 32 ∷ 33 ∷ 2335 ∷ 2336 ∷ 2337 ∷ 2338 ∷ 2339 ∷ 2340 ∷ 41 ∷ 40 ∷ 2341
    ∷ 2342 ∷ 44 ∷ 2343 ∷ 46 ∷ 2344 ∷ 48 ∷ 49 ∷ 50 ∷ 51 ∷ 52 ∷ 53 ∷ 54 ∷ 55 ∷ 56 ∷ 57 ∷ 58 ∷ 59
    ∷ 2345 ∷ 2346 ∷ 2347 ∷ 63 ∷ 2348 ∷ 2349 ∷ 2350 ∷ 2351 ∷ 2352 ∷ 2353 ∷ 2354 ∷ 2355 ∷ 2356 ∷ 2357
    ∷ 2358 ∷ 2359 ∷ 2360 ∷ 2361 ∷ 2364 ∷ 2365 ∷ 2366 ∷ 2367 ∷ 2368 ∷ 2369 ∷ 2370 ∷ 2371 ∷ 2372
    ∷ 2373 ∷ 2374 ∷ 2375 ∷ 2376 ∷ 2377 ∷ 2378 ∷ 2379 ∷ 2380 ∷ 2381 ∷ 2384 ∷ 97 ∷ 98 ∷ 99 ∷ 100 ∷ 101
    ∷ 102 ∷ 103 ∷ 104 ∷ 105 ∷ 106 ∷ 107 ∷ 108 ∷ 109 ∷ 110 ∷ 111 ∷ 112 ∷ 113 ∷ 114 ∷ 115 ∷ 116 ∷ 117
    ∷ 118 ∷ 119 ∷ 120 ∷ 121 ∷ 122 ∷ 2418 ∷ 2427 ∷ 2428 ∷ 2430 ∷ 2431 ∷ []

ls16_7 : List ℕ
ls16_7 =
    2304 ∷ 3202 ∷ 3203 ∷ 3205 ∷ 3206 ∷ 3207 ∷ 3208 ∷ 3209 ∷ 3210 ∷ 3211 ∷ 10 ∷ 3212 ∷ 3072 ∷ 13
    ∷ 3214 ∷ 3215 ∷ 3216 ∷ 3072 ∷ 3218 ∷ 3219 ∷ 3220 ∷ 3221 ∷ 3222 ∷ 3223 ∷ 3224 ∷ 3225 ∷ 3226 ∷ 27
    ∷ 3227 ∷ 3228 ∷ 3229 ∷ 3230 ∷ 32 ∷ 33 ∷ 3231 ∷ 3232 ∷ 3233 ∷ 3234 ∷ 3235 ∷ 3236 ∷ 41 ∷ 40 ∷ 3237
    ∷ 3238 ∷ 44 ∷ 3239 ∷ 46 ∷ 3240 ∷ 48 ∷ 49 ∷ 50 ∷ 51 ∷ 52 ∷ 53 ∷ 54 ∷ 55 ∷ 56 ∷ 57 ∷ 58 ∷ 59 ∷ 0
    ∷ 3242 ∷ 3243 ∷ 63 ∷ 3244 ∷ 3245 ∷ 3246 ∷ 3247 ∷ 3248 ∷ 3249 ∷ 3250 ∷ 3251 ∷ 3072 ∷ 3253 ∷ 3254
    ∷ 3255 ∷ 3256 ∷ 3257 ∷ 3260 ∷ 3261 ∷ 3262 ∷ 3263 ∷ 3264 ∷ 3265 ∷ 3266 ∷ 3267 ∷ 3268 ∷ 3072
    ∷ 3270 ∷ 3271 ∷ 3272 ∷ 3072 ∷ 3274 ∷ 3275 ∷ 3276 ∷ 3277 ∷ 3285 ∷ 97 ∷ 98 ∷ 99 ∷ 100 ∷ 101 ∷ 102
    ∷ 103 ∷ 104 ∷ 105 ∷ 106 ∷ 107 ∷ 108 ∷ 109 ∷ 110 ∷ 111 ∷ 112 ∷ 113 ∷ 114 ∷ 115 ∷ 116 ∷ 117 ∷ 118
    ∷ 119 ∷ 120 ∷ 121 ∷ 122 ∷ 3286 ∷ 3296 ∷ 3297 ∷ 3298 ∷ 3299 ∷ []

ls16_8 : List ℕ
ls16_8 =
    3072 ∷ 3330 ∷ 3331 ∷ 3333 ∷ 3334 ∷ 3335 ∷ 3336 ∷ 3337 ∷ 3338 ∷ 3339 ∷ 10 ∷ 3340 ∷ 3328 ∷ 13
    ∷ 3342 ∷ 3343 ∷ 3344 ∷ 3328 ∷ 3346 ∷ 3347 ∷ 3348 ∷ 3349 ∷ 3350 ∷ 3351 ∷ 3352 ∷ 3353 ∷ 3354 ∷ 27
    ∷ 3355 ∷ 3356 ∷ 3357 ∷ 3358 ∷ 32 ∷ 33 ∷ 3359 ∷ 3360 ∷ 3361 ∷ 3362 ∷ 3363 ∷ 3364 ∷ 41 ∷ 40 ∷ 3365
    ∷ 3366 ∷ 44 ∷ 3367 ∷ 46 ∷ 3368 ∷ 48 ∷ 49 ∷ 50 ∷ 51 ∷ 52 ∷ 53 ∷ 54 ∷ 55 ∷ 56 ∷ 57 ∷ 58 ∷ 59 ∷ 0
    ∷ 3370 ∷ 3371 ∷ 63 ∷ 3372 ∷ 3373 ∷ 3374 ∷ 3375 ∷ 3376 ∷ 3377 ∷ 3378 ∷ 3379 ∷ 3380 ∷ 3381 ∷ 3382
    ∷ 3383 ∷ 3384 ∷ 3385 ∷ 3328 ∷ 3389 ∷ 3390 ∷ 3391 ∷ 3392 ∷ 3393 ∷ 3394 ∷ 3395 ∷ 3396 ∷ 3328
    ∷ 3398 ∷ 3399 ∷ 3400 ∷ 3328 ∷ 3402 ∷ 3403 ∷ 3404 ∷ 3405 ∷ 3415 ∷ 97 ∷ 98 ∷ 99 ∷ 100 ∷ 101 ∷ 102
    ∷ 103 ∷ 104 ∷ 105 ∷ 106 ∷ 107 ∷ 108 ∷ 109 ∷ 110 ∷ 111 ∷ 112 ∷ 113 ∷ 114 ∷ 115 ∷ 116 ∷ 117 ∷ 118
    ∷ 119 ∷ 120 ∷ 121 ∷ 122 ∷ 3424 ∷ 3425 ∷ 3426 ∷ 3427 ∷ 3449 ∷ []

ls16_9 : List ℕ
ls16_9 =
    2817 ∷ 2818 ∷ 2819 ∷ 2821 ∷ 2822 ∷ 2823 ∷ 2824 ∷ 2825 ∷ 2826 ∷ 2827 ∷ 10 ∷ 2828 ∷ 2816 ∷ 13 ∷ 0
    ∷ 2831 ∷ 2832 ∷ 2816 ∷ 2816 ∷ 2835 ∷ 2836 ∷ 2837 ∷ 2838 ∷ 2839 ∷ 2840 ∷ 2841 ∷ 2842 ∷ 27 ∷ 2843
    ∷ 2844 ∷ 2845 ∷ 2846 ∷ 32 ∷ 33 ∷ 2847 ∷ 2848 ∷ 2849 ∷ 2850 ∷ 2851 ∷ 2852 ∷ 41 ∷ 40 ∷ 2853 ∷ 2854
    ∷ 44 ∷ 2855 ∷ 46 ∷ 2856 ∷ 48 ∷ 49 ∷ 50 ∷ 51 ∷ 52 ∷ 53 ∷ 54 ∷ 55 ∷ 56 ∷ 57 ∷ 58 ∷ 59 ∷ 0 ∷ 2858
    ∷ 2859 ∷ 63 ∷ 2860 ∷ 2861 ∷ 2862 ∷ 2863 ∷ 2864 ∷ 2816 ∷ 2866 ∷ 2867 ∷ 2816 ∷ 2869 ∷ 2870 ∷ 2871
    ∷ 2872 ∷ 2873 ∷ 2876 ∷ 2877 ∷ 2878 ∷ 2879 ∷ 2880 ∷ 2881 ∷ 2882 ∷ 2883 ∷ 2884 ∷ 2816 ∷ 2816
    ∷ 2887 ∷ 2888 ∷ 2816 ∷ 2816 ∷ 2891 ∷ 2892 ∷ 2893 ∷ 2902 ∷ 97 ∷ 98 ∷ 99 ∷ 100 ∷ 101 ∷ 102 ∷ 103
    ∷ 104 ∷ 105 ∷ 106 ∷ 107 ∷ 108 ∷ 109 ∷ 110 ∷ 111 ∷ 112 ∷ 113 ∷ 114 ∷ 115 ∷ 116 ∷ 117 ∷ 118 ∷ 119
    ∷ 120 ∷ 121 ∷ 122 ∷ 2903 ∷ 2912 ∷ 2913 ∷ 2914 ∷ 2915 ∷ []

ls16_10 : List ℕ
ls16_10 =
    2561 ∷ 2562 ∷ 2563 ∷ 2565 ∷ 2566 ∷ 2567 ∷ 2568 ∷ 2569 ∷ 2570 ∷ 2560 ∷ 10 ∷ 0 ∷ 0 ∷ 13 ∷ 0 ∷ 2575
    ∷ 2576 ∷ 2560 ∷ 2560 ∷ 2579 ∷ 2580 ∷ 2581 ∷ 2582 ∷ 2583 ∷ 2584 ∷ 2585 ∷ 2586 ∷ 27 ∷ 2587 ∷ 2588
    ∷ 2589 ∷ 2590 ∷ 32 ∷ 33 ∷ 2591 ∷ 2592 ∷ 2593 ∷ 2594 ∷ 2595 ∷ 2596 ∷ 41 ∷ 40 ∷ 2597 ∷ 2598 ∷ 44
    ∷ 2599 ∷ 46 ∷ 2600 ∷ 48 ∷ 49 ∷ 50 ∷ 51 ∷ 52 ∷ 53 ∷ 54 ∷ 55 ∷ 56 ∷ 57 ∷ 58 ∷ 59 ∷ 0 ∷ 2602 ∷ 2603
    ∷ 63 ∷ 2604 ∷ 2605 ∷ 2606 ∷ 2607 ∷ 2608 ∷ 2560 ∷ 2610 ∷ 2611 ∷ 2560 ∷ 2613 ∷ 2614 ∷ 2560 ∷ 2616
    ∷ 2617 ∷ 2620 ∷ 2560 ∷ 2622 ∷ 2623 ∷ 2624 ∷ 2625 ∷ 2626 ∷ 2560 ∷ 2560 ∷ 2560 ∷ 2560 ∷ 2631
    ∷ 2632 ∷ 2560 ∷ 2560 ∷ 2635 ∷ 2636 ∷ 2637 ∷ 2641 ∷ 97 ∷ 98 ∷ 99 ∷ 100 ∷ 101 ∷ 102 ∷ 103 ∷ 104
    ∷ 105 ∷ 106 ∷ 107 ∷ 108 ∷ 109 ∷ 110 ∷ 111 ∷ 112 ∷ 113 ∷ 114 ∷ 115 ∷ 116 ∷ 117 ∷ 118 ∷ 119 ∷ 120
    ∷ 121 ∷ 122 ∷ 2672 ∷ 2673 ∷ 2674 ∷ 2675 ∷ 2676 ∷ []

ls16_11 : List ℕ
ls16_11 =
    2560 ∷ 2946 ∷ 2947 ∷ 2949 ∷ 2950 ∷ 2951 ∷ 2952 ∷ 2953 ∷ 2954 ∷ 2816 ∷ 10 ∷ 0 ∷ 0 ∷ 13 ∷ 2958
    ∷ 2959 ∷ 2960 ∷ 2816 ∷ 2962 ∷ 2963 ∷ 2964 ∷ 2965 ∷ 2816 ∷ 2816 ∷ 2816 ∷ 2969 ∷ 2970 ∷ 27 ∷ 0
    ∷ 2972 ∷ 2816 ∷ 2974 ∷ 32 ∷ 33 ∷ 2975 ∷ 2816 ∷ 2816 ∷ 2816 ∷ 2979 ∷ 2980 ∷ 41 ∷ 40 ∷ 0 ∷ 0 ∷ 44
    ∷ 0 ∷ 46 ∷ 2984 ∷ 48 ∷ 49 ∷ 50 ∷ 51 ∷ 52 ∷ 53 ∷ 54 ∷ 55 ∷ 56 ∷ 57 ∷ 58 ∷ 59 ∷ 2985 ∷ 2986 ∷ 2816
    ∷ 63 ∷ 0 ∷ 0 ∷ 2990 ∷ 2991 ∷ 2992 ∷ 2993 ∷ 2994 ∷ 2995 ∷ 2996 ∷ 2997 ∷ 2998 ∷ 2999 ∷ 3000 ∷ 3001
    ∷ 2816 ∷ 2816 ∷ 3006 ∷ 3007 ∷ 3008 ∷ 3009 ∷ 3010 ∷ 2816 ∷ 2816 ∷ 2816 ∷ 3014 ∷ 3015 ∷ 3016
    ∷ 2816 ∷ 3018 ∷ 3019 ∷ 3020 ∷ 3021 ∷ 3024 ∷ 97 ∷ 98 ∷ 99 ∷ 100 ∷ 101 ∷ 102 ∷ 103 ∷ 104 ∷ 105
    ∷ 106 ∷ 107 ∷ 108 ∷ 109 ∷ 110 ∷ 111 ∷ 112 ∷ 113 ∷ 114 ∷ 115 ∷ 116 ∷ 117 ∷ 118 ∷ 119 ∷ 120 ∷ 121
    ∷ 122 ∷ 3031 ∷ 3056 ∷ 3057 ∷ 3058 ∷ 3065 ∷ []

ls16_12 : List ℕ
ls16_12 =
    3073 ∷ 3074 ∷ 3075 ∷ 3077 ∷ 3078 ∷ 3079 ∷ 3080 ∷ 3081 ∷ 3082 ∷ 3083 ∷ 10 ∷ 3084 ∷ 3072 ∷ 13
    ∷ 3086 ∷ 3087 ∷ 3088 ∷ 3072 ∷ 3090 ∷ 3091 ∷ 3092 ∷ 3093 ∷ 3094 ∷ 3095 ∷ 3096 ∷ 3097 ∷ 3098 ∷ 27
    ∷ 3099 ∷ 3100 ∷ 3101 ∷ 3102 ∷ 32 ∷ 33 ∷ 3103 ∷ 3104 ∷ 3105 ∷ 3106 ∷ 3107 ∷ 3108 ∷ 41 ∷ 40 ∷ 3109
    ∷ 3110 ∷ 44 ∷ 3111 ∷ 46 ∷ 3112 ∷ 48 ∷ 49 ∷ 50 ∷ 51 ∷ 52 ∷ 53 ∷ 54 ∷ 55 ∷ 56 ∷ 57 ∷ 58 ∷ 59 ∷ 0
    ∷ 3114 ∷ 3115 ∷ 63 ∷ 3116 ∷ 3117 ∷ 3118 ∷ 3119 ∷ 3120 ∷ 3121 ∷ 3122 ∷ 3123 ∷ 3072 ∷ 3125 ∷ 3126
    ∷ 3127 ∷ 3128 ∷ 3129 ∷ 3072 ∷ 3133 ∷ 3134 ∷ 3135 ∷ 3136 ∷ 3137 ∷ 3138 ∷ 3139 ∷ 3140 ∷ 3072
    ∷ 3142 ∷ 3143 ∷ 3144 ∷ 3072 ∷ 3146 ∷ 3147 ∷ 3148 ∷ 3149 ∷ 3157 ∷ 97 ∷ 98 ∷ 99 ∷ 100 ∷ 101 ∷ 102
    ∷ 103 ∷ 104 ∷ 105 ∷ 106 ∷ 107 ∷ 108 ∷ 109 ∷ 110 ∷ 111 ∷ 112 ∷ 113 ∷ 114 ∷ 115 ∷ 116 ∷ 117 ∷ 118
    ∷ 119 ∷ 120 ∷ 121 ∷ 122 ∷ 3158 ∷ 3168 ∷ 3169 ∷ 3170 ∷ 3171 ∷ []

ls16_13 : List ℕ
ls16_13 =
    1575 ∷ 1570 ∷ 1576 ∷ 1659 ∷ 1664 ∷ 1662 ∷ 1702 ∷ 1578 ∷ 1730 ∷ 1663 ∷ 10 ∷ 1657 ∷ 1661 ∷ 13
    ∷ 1658 ∷ 1660 ∷ 1579 ∷ 1580 ∷ 1665 ∷ 1668 ∷ 1667 ∷ 1669 ∷ 1670 ∷ 1671 ∷ 1581 ∷ 1582 ∷ 1583 ∷ 27
    ∷ 1676 ∷ 1672 ∷ 1673 ∷ 1674 ∷ 32 ∷ 33 ∷ 1679 ∷ 1677 ∷ 1584 ∷ 1585 ∷ 1681 ∷ 1683 ∷ 41 ∷ 40 ∷ 1689
    ∷ 1586 ∷ 44 ∷ 1686 ∷ 46 ∷ 1688 ∷ 48 ∷ 49 ∷ 50 ∷ 51 ∷ 52 ∷ 53 ∷ 54 ∷ 55 ∷ 56 ∷ 57 ∷ 58 ∷ 59
    ∷ 1690 ∷ 1587 ∷ 1588 ∷ 63 ∷ 1589 ∷ 1590 ∷ 1591 ∷ 1592 ∷ 1593 ∷ 1601 ∷ 1602 ∷ 1705 ∷ 1706 ∷ 1707
    ∷ 1711 ∷ 1715 ∷ 1713 ∷ 1604 ∷ 1605 ∷ 1606 ∷ 1722 ∷ 1723 ∷ 1724 ∷ 1608 ∷ 1732 ∷ 1749 ∷ 1729
    ∷ 1726 ∷ 1569 ∷ 1740 ∷ 1744 ∷ 1746 ∷ 1613 ∷ 1616 ∷ 1615 ∷ 1623 ∷ 1620 ∷ 97 ∷ 98 ∷ 99 ∷ 100 ∷ 101
    ∷ 102 ∷ 103 ∷ 104 ∷ 105 ∷ 106 ∷ 107 ∷ 108 ∷ 109 ∷ 110 ∷ 111 ∷ 112 ∷ 113 ∷ 114 ∷ 115 ∷ 116 ∷ 117
    ∷ 118 ∷ 119 ∷ 120 ∷ 121 ∷ 122 ∷ 1621 ∷ 1617 ∷ 1619 ∷ 1622 ∷ 1648 ∷ []

unfoldable pub lut_gsm7_ls16 : List (List ℕ)
unfolding ls16_0 ls16_1 ls16_2 ls16_3 ls16_4 ls16_5 ls16_6 ls16_7 ls16_8 ls16_9 ls16_10 ls16_11
    ls16_12 ls16_13
lut_gsm7_ls16 =
    ls16_0 ∷ ls16_1 ∷ ls16_2 ∷ ls16_3 ∷ ls16_4 ∷ ls16_5 ∷ ls16_6 ∷ ls16_7 ∷ ls16_8 ∷ ls16_9
    ∷ ls16_10 ∷ ls16_11 ∷ ls16_12 ∷ ls16_13 ∷ []
